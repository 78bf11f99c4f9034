-- ===== src/Server/Reports/Taken.antt =====
-- Which reports remotehub takes (crates/server/src/api/connectors.rs), and that it takes again what it
-- keeps of one.
use remotehub.Base.{
  ℕ, Bool, true, false, ◌&&◌, Option, none, some, List, [], ◌∷◌, leb, all, length, ◌⊎◌, inl, inr,
  arith, ◌≡◌, refl, ◌∙◌,
}
use remotehub.Base.Text.{Text, text}
use remotehub.Connector.Requests.Defs.{Answer, max_requests}
use remotehub.Connector.Agent.Report.{AccessState, OpenGroup, OpenDevice, max_listed}
use remotehub.Server.Reports.{
  plain_text, is_some_text, same_bool, and_then, check_all, point, check_group, check_device,
  check_answer, check_list, checked_state,
}

abbrev pub is_taken : {A : Type 0} → Text ⊎ A → Bool
is_taken (inl field) = false
is_taken (inr a) = true

-- A check that takes what passes a test.
check_all-taken :
    {A : Type 0} (f : A → Text ⊎ A) (p : A → Bool)
    → ((a : A) → is_taken (f a) ≡ p a)
    → (xs : List A) → is_taken (check_all f xs) ≡ all p xs
check_all-taken f p h [] = refl
check_all-taken f p h (x ∷ xs) = ground (arith, h x, check_all-taken f p h xs)

last_true : (a b c d : Bool) → (a && (b && (c && (d && true)))) ≡ (a && (b && (c && d)))
last_true a b c d = ground arith

module _ (utc : Text → Option Text) where
  -- No end, or one that is a point in time.
  abbrev pub is_point : Option Text → Bool
  is_point none = true
  is_point (some t) = is_some_text (utc t)

  abbrev pub plain_group : OpenGroup → Bool
  plain_group g = plain_text g.name && is_point g.until

  abbrev pub plain_device : OpenDevice → Bool
  plain_device d =
      plain_text d.name && (plain_text d.address && (plain_text d.ports && is_point d.until))

  -- An approval names its end, a refusal none.
  abbrev pub plain_answer : Answer → Bool
  plain_answer a =
      plain_text a.by && ((same_bool a.approved (is_some_text a.until)) && is_point a.until)

  abbrev pub fits : AccessState → Bool
  fits r =
      is_point r.until
      && ((leb (length r.groups) max_listed && all plain_group r.groups)
          && ((leb (length r.devices) max_listed && all plain_device r.devices)
              && (leb (length r.answers) max_requests && all plain_answer r.answers)))

  point-taken :
      (field : Text) (until : Option Text) → is_taken (point utc field until) ≡ is_point until
  point-taken field none = refl
  point-taken field (some t) = ground arith

  check_group-taken : (g : OpenGroup) → is_taken (check_group utc g) ≡ plain_group g
  unfolding check_group
  check_group-taken g = ground (arith, point-taken (text "groups") g.until)

  check_device-taken : (d : OpenDevice) → is_taken (check_device utc d) ≡ plain_device d
  unfolding check_device
  check_device-taken d = ground (arith, point-taken (text "devices") d.until)

  check_answer-taken : (a : Answer) → is_taken (check_answer utc a) ≡ plain_answer a
  unfolding check_answer
  check_answer-taken a = ground (arith, point-taken (text "answers") a.until)

  check_list-taken :
      {A : Type 0} (f : A → Text ⊎ A) (p : A → Bool) (field : Text) (longest : ℕ)
      → ((a : A) → is_taken (f a) ≡ p a)
      → (xs : List A)
      → is_taken (check_list utc field longest f xs) ≡ (leb (length xs) longest && all p xs)
  check_list-taken f p field longest h xs = ground (arith, check_all-taken f p h xs)

  is_taken-and_then :
      {A B : Type 0} (m : Text ⊎ A) (f : A → Text ⊎ B) (b : Bool)
      → ((a : A) → is_taken (f a) ≡ b)
      → is_taken (and_then m f) ≡ (is_taken m && b)
  is_taken-and_then (inl e) f b h = refl
  is_taken-and_then (inr a) f b h = ground (arith, h a)

  -- A report is taken exactly if every end in it is a point in time, no list is longer than it may be,
  -- and every name, address and port list is plain and has at most 200 characters; an answer names an
  -- end exactly if it approves.
  pub checked_state-fits : (r : AccessState) → is_taken (checked_state utc r) ≡ fits r
  unfolding checked_state
  checked_state-fits r =
      is_taken-and_then (point utc (text "until") r.until) _ _ (λ until.
        is_taken-and_then (check_list utc (text "groups") max_listed (check_group utc) r.groups) _ _
          (λ groups.
            is_taken-and_then
              (check_list utc (text "devices") max_listed (check_device utc) r.devices) _ _
              (λ devices.
                is_taken-and_then
                  (check_list utc (text "answers") max_requests (check_answer utc) r.answers) _ _
                  (λ answers. refl))))
      ∙ rw
          (
            point-taken (text "until") r.until,
            check_list-taken (check_group utc) plain_group (text "groups") max_listed
                check_group-taken r.groups,
            check_list-taken (check_device utc) plain_device (text "devices") max_listed
                check_device-taken r.devices,
            check_list-taken (check_answer utc) plain_answer (text "answers") max_requests
                check_answer-taken r.answers,
          )
          (last_true (is_point r.until)
            (leb (length r.groups) max_listed && all plain_group r.groups)
            (leb (length r.devices) max_listed && all plain_device r.devices)
            (leb (length r.answers) max_requests && all plain_answer r.answers))
