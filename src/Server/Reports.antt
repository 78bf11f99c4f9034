-- ===== src/Server/Reports.antt =====
-- `checked_state` of crates/server/src/api/connectors.rs: what remotehub takes of a report. How a point
-- in time is read and written (`utc`) is a parameter.
pub mod Taken
pub mod Sent
pub mod Refused
mod Tests
use remotehub.Base.{
  ℕ, Bool, true, false, ◌&&◌, not, Option, none, some, List, [], ◌∷◌, if◌then◌else◌, leb, ltb, ◌==◌,
  any, is_empty, length, ◌⊎◌, inl, inr, HasEq,
}
use remotehub.Base.Text.{Text, text, is_control}
use remotehub.Connector.Requests.Defs.{Answer, max_requests}
use remotehub.Connector.Agent.Report.{AccessState, OpenGroup, OpenDevice, max_listed}

abbrev pub max_text : ℕ
max_text = 200

-- The closure `plain`.
unfoldable pub plain_text : Text → Bool
plain_text s = not (is_empty s) && (leb (length s) max_text && not (any is_control s))

abbrev pub is_some_text : Option Text → Bool
is_some_text none = false
is_some_text (some t) = true

abbrev pub same_bool : Bool → Bool → Bool
same_bool a b = if a then b else not b

-- `?`
abbrev pub and_then : {A B : Type 0} → Text ⊎ A → (A → Text ⊎ B) → Text ⊎ B
and_then (inl field) f = inl field
and_then (inr a) f = f a

-- The loops over the lists of a report.
abbrev pub check_all : {A : Type 0} → (A → Text ⊎ A) → List A → Text ⊎ List A
check_all f [] = inr []
check_all f (x ∷ xs) = and_then (f x) (λ y. and_then (check_all f xs) (λ ys. inr (y ∷ ys)))

module _ (utc : Text → Option Text) where
  abbrev pub some_point : Text → Option Text → Text ⊎ Option Text
  some_point field none = inl field
  some_point field (some at) = inr (some at)

  -- The closure `point`.
  abbrev pub point : Text → Option Text → Text ⊎ Option Text
  point field none = inr none
  point field (some t) = some_point field (utc t)

  unfoldable pub check_group : OpenGroup → Text ⊎ OpenGroup
  unfolding plain_text
  check_group g =
      if not (plain_text g.name)
      then inl (text "groups")
      else and_then (point (text "groups") g.until) (λ until. inr (record g { until = until }))

  unfoldable pub check_device : OpenDevice → Text ⊎ OpenDevice
  unfolding plain_text
  check_device d =
      if not (plain_text d.name && (plain_text d.address && plain_text d.ports))
      then inl (text "devices")
      else and_then (point (text "devices") d.until) (λ until. inr (record d { until = until }))

  unfoldable pub check_answer : Answer → Text ⊎ Answer
  unfolding plain_text
  check_answer a =
      if not (plain_text a.by && (same_bool a.approved (is_some_text a.until)))
      then inl (text "answers")
      else and_then (point (text "answers") a.until) (λ until. inr (record a { until = until }))

  -- A list that is too long is refused before it is looked at.
  abbrev pub check_list : {A : Type 0} → Text → ℕ → (A → Text ⊎ A) → List A → Text ⊎ List A
  check_list field longest f xs = if ltb longest (length xs) then inl field else check_all f xs

  unfoldable pub checked_state : AccessState → Text ⊎ AccessState
  unfolding check_group check_device check_answer
  checked_state r = and_then (point (text "until") r.until) (λ until.
      and_then (check_list (text "groups") max_listed check_group r.groups) (λ groups.
        and_then (check_list (text "devices") max_listed check_device r.devices) (λ devices.
          and_then (check_list (text "answers") max_requests check_answer r.answers) (λ answers.
            inr (record r {
              until = until;
              groups = groups;
              devices = devices;
              answers = answers;
            })))))
