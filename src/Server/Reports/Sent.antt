-- ===== src/Server/Reports/Sent.antt =====
-- The connector's report (`state` of crates/connector/src/agent.rs) and what remotehub takes of it
-- (`checked_state` of crates/server/src/api/connectors.rs).
use remotehub.Base.{
  ℕ, zero, suc, Bool, true, false, ◌&&◌, Option, none, some, List, [], ◌∷◌, ◌++◌, map, leb, all,
  length, ◌⊎◌, inl, inr, arith, ◌≡◌, refl, ◌∙◌, Bool-cases,
}
use remotehub.Base.Text.{Text, text}
use remotehub.Connector.Inventory.Defs.{Address}
use remotehub.Connector.Access.Defs.{
  Time, Uuid, Grant, Snapshot, closes_at, network_until, device_until, open_devices, open_requests,
}
use remotehub.Connector.Access.Queries.{open_groups}
use remotehub.Connector.Requests.Defs.{take}
use remotehub.Connector.Agent.Report.{
  AccessState, OpenGroup, OpenDevice, max_listed, state, approved, open_group_of, open_device_of,
  approved_target, flatten_end,
}
use remotehub.Connector.Agent.Report as Report
use remotehub.Connector.Agent.Reported.{state-bounded}
use remotehub.Server.Reports.{
  plain_text, check_all, point, check_group, check_device, check_list, checked_state,
}
use remotehub.Server.Reports.Taken.{
  is_taken, fits, is_point, plain_group, plain_device, checked_state-fits,
}

-- Of every one of a list.
abbrev Every : {A : Type 0} → (A → Type 0) → List A → Type 0
Every P [] = Unit {0}
Every P (x ∷ xs) = P x × Every P xs

Every-take : {A : Type 0} (P : A → Type 0) (n : ℕ) (xs : List A) → Every P xs → Every P (take n xs)
Every-take P zero xs h = tt
Every-take P (suc n) [] h = tt
Every-take P (suc n) (x ∷ xs) (h, hs) = (h, Every-take P n xs hs)

Every-append :
    {A : Type 0} (P : A → Type 0) (xs ys : List A) → Every P xs → Every P ys → Every P (xs ++ ys)
Every-append P [] ys h k = k
Every-append P (x ∷ xs) ys (h, hs) k = (h, Every-append P xs ys hs k)

Every-map :
    {A B : Type 0} (P : B → Type 0) (f : A → B)
    → ((a : A) → P (f a))
    → (xs : List A) → Every P (map f xs)
Every-map P f h [] = tt
Every-map P f h (x ∷ xs) = (h x, Every-map P f h xs)

-- What each check leaves as it is, the loop does.
check_all-same :
    {A : Type 0} (f : A → Text ⊎ A) (p : A → Bool) (P : A → Type 0)
    → ((a : A) → P a → p a ≡ true → f a ≡ inr a)
    → (xs : List A) → Every P xs
    → all p xs ≡ true
    → check_all f xs ≡ inr xs
check_all-same f p P h [] e a = refl
check_all-same f p P h (x ∷ xs) (e, es) a =
    rw (h x e (ground arith), check_all-same f p P h xs es (ground arith)) refl

both_within : (a b p q : Bool) → a ≡ true → b ≡ true → ((a && p) && ((b && q) && true)) ≡ (p && q)
both_within a b p q x y = ground arith

module _ (utc : Text → Option Text) where
  -- An end that is written the way remotehub writes it.
  abbrev IsWritten : Option Text → Type 0
  IsWritten none = Unit {0}
  IsWritten (some t) = utc t ≡ some t

  point-same :
      (field : Text) (until : Option Text) → IsWritten until → point utc field until ≡ inr until
  point-same field none e = refl
  point-same field (some t) e = rw e refl

  check_group-same :
      (g : OpenGroup) → IsWritten g.until → plain_group utc g ≡ true → check_group utc g ≡ inr g
  unfolding check_group
  check_group-same g e p = rw (point-same (text "groups") g.until e) (ground (arith, p))

  check_device-same :
      (d : OpenDevice) → IsWritten d.until → plain_device utc d ≡ true → check_device utc d ≡ inr d
  unfolding check_device
  check_device-same d e p = rw (point-same (text "devices") d.until e) (ground (arith, p))

  -- A report without answers whose ends are all written so.
  fits-same :
      (r : AccessState)
      → r.answers ≡ []
      → IsWritten r.until
      → Every (λ g. IsWritten g.until) r.groups
      → Every (λ d. IsWritten d.until) r.devices
      → fits utc r ≡ true
      → checked_state utc r ≡ inr r
  unfolding checked_state
  fits-same r a u gs ds h =
      let groups : check_list utc (text "groups") max_listed (check_group utc) r.groups
          ≡ inr r.groups =
        rw
          (check_all-same (check_group utc) (plain_group utc) (λ g. IsWritten g.until)
            check_group-same r.groups gs (ground (arith, h)))
          (ground (arith, h)) in
      let devices : check_list utc (text "devices") max_listed (check_device utc) r.devices
          ≡ inr r.devices =
        rw
          (check_all-same (check_device utc) (plain_device utc) (λ d. IsWritten d.until)
            check_device-same r.devices ds (ground (arith, h)))
          (ground (arith, h)) in
      rw (a, point-same (text "until") r.until u, groups, devices) refl

  IsWritten-point : (until : Option Text) → IsWritten until → is_point utc until ≡ true
  IsWritten-point none e = refl
  IsWritten-point (some t) e = rw e refl

  -- The texts of an entry are plain.
  abbrev pub plain_name : OpenGroup → Bool
  plain_name g = plain_text g.name

  abbrev pub plain_texts : OpenDevice → Bool
  plain_texts d = plain_text d.name && (plain_text d.address && plain_text d.ports)

  all-plain_group :
      (gs : List OpenGroup)
      → Every (λ g. IsWritten g.until) gs
      → all (plain_group utc) gs ≡ all plain_name gs
  all-plain_group [] e = refl
  all-plain_group (g ∷ gs) (e, es) =
      rw (IsWritten-point g.until e, all-plain_group gs es) (ground arith)

  all-plain_device :
      (ds : List OpenDevice)
      → Every (λ d. IsWritten d.until) ds
      → all (plain_device utc) ds ≡ all plain_texts ds
  all-plain_device [] e = refl
  all-plain_device (d ∷ ds) (e, es) =
      rw (IsWritten-point d.until e, all-plain_device ds es) (ground arith)

  module _ (format : Time → Option Text) (show_address : Address → Text)
      (written : (t : Time) (u : Text) → format t ≡ some u → utc u ≡ some u) where
    end-IsWritten : (end : Option Time) → IsWritten (Report.and_then end format)
    end-IsWritten none = tt
    end-IsWritten (some t) = at (format t) refl
      where
        at : (u : Option Text) → format t ≡ u → IsWritten u
        at none e = tt
        at (some u) e = written t u e

    approved-Every :
        (rs : List (Uuid × Grant))
        → Every (λ d. IsWritten d.until) (approved format show_address rs)
    unfolding approved
    approved-Every [] = tt
    approved-Every ((id, g) ∷ rest) =
        Every-append (λ d. IsWritten d.until)
          (map (approved_target format show_address (closes_at g.stored.access)) g.targets)
          (approved format show_address rest)
          (Every-map (λ d. IsWritten d.until)
            (approved_target format show_address (closes_at g.stored.access))
            (λ t. end-IsWritten (closes_at g.stored.access)) g.targets)
          (approved-Every rest)

    groups-Every :
        (s : Snapshot) (now : Time)
        → Every (λ g. IsWritten g.until) (state format show_address s now).groups
    unfolding state
    groups-Every s now =
        Every-take (λ g. IsWritten g.until) max_listed
          (map (open_group_of format show_address) (open_groups s now))
          (Every-map (λ g. IsWritten g.until) (open_group_of format show_address)
            (λ p. end-IsWritten p.1) (open_groups s now))

    devices-Every :
        (s : Snapshot) (now : Time)
        → Every (λ d. IsWritten d.until) (state format show_address s now).devices
    unfolding state
    devices-Every s now =
        Every-take (λ d. IsWritten d.until) max_listed
          (map (open_device_of format show_address s now) (open_devices s now)
            ++ approved format show_address (open_requests s now))
          (Every-append (λ d. IsWritten d.until)
            (map (open_device_of format show_address s now) (open_devices s now))
            (approved format show_address (open_requests s now))
            (Every-map (λ d. IsWritten d.until) (open_device_of format show_address s now)
              (λ d. end-IsWritten (flatten_end (device_until s d now))) (open_devices s now))
            (approved-Every (open_requests s now)))

    fits-state :
        (s : Snapshot) (now : Time)
        → let r = state format show_address s now in
          fits utc r ≡ (all plain_name r.groups && all plain_texts r.devices)
    fits-state s now =
        let r = state format show_address s now in
        let (groups, devices, opened) = state-bounded format show_address s now in
        let until : is_point utc r.until ≡ true =
          IsWritten-point r.until
            (unfold state in end-IsWritten (flatten_end (network_until s now))) in
        let no_answers : r.answers ≡ [] = unfold state in refl in
        rw
          (
            until,
            all-plain_group r.groups (groups-Every s now),
            all-plain_device r.devices (devices-Every s now),
          )
          (rw no_answers (
            both_within (leb (length r.groups) max_listed) (leb (length r.devices) max_listed) _ _
              (ground (arith, groups)) (ground (arith, devices))))

    -- Where both sides write points in time the same way, remotehub takes the connector's report, where
    -- no answer to a request is in it, and as it is, exactly if the names, addresses and port lists in it are plain and have at most 200
    -- characters.
    pub report-taken :
        (s : Snapshot) (now : Time)
        → let r = state format show_address s now in
          (is_taken (checked_state utc r) ≡ (all plain_name r.groups && all plain_texts r.devices))
          × ((checked_state utc r ≡ inr r)
              ⊎ ((all plain_name r.groups && all plain_texts r.devices) ≡ false))
    report-taken s now =
        let r = state format show_address s now in
        (
          checked_state-fits utc r ∙ fits-state s now,
          elim (Bool-cases (all plain_name r.groups && all plain_texts r.devices)) [
            | inl p ↦ inl (
                fits-same r (unfold state in refl)
                  (unfold state in end-IsWritten (flatten_end (network_until s now)))
                  (groups-Every s now) (devices-Every s now) (fits-state s now ∙ p))
            | inr n ↦ inr n
          ],
        )
