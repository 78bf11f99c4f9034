-- ===== src/Connector/Access/Permit.antt =====
-- Which connections the customer's access lets through (`open_until` in
-- crates/connector/src/agent.rs), and until when.
use remotehub.Base.{
  ℕ, Bool, true, false, ◌&&◌, ◌||◌, Option, none, some, List, [], ◌∷◌, if◌then◌else◌, ◌≤◌, any,
  filter, arith, ◌≡◌, refl, sym, ◌∙◌, Bool-cases, inl, inr,
}
use remotehub.Base.Text.{Text}
use remotehub.Connector.Inventory.Defs.{Device, IpAddr, Network, Address}
use remotehub.Connector.Access.Defs.{
  Time, Uuid, Access, is_open, closes_at, Grant, Snapshot, End, later, network_open, network_until,
  device_until, is_some, open_devices, open_requests,
}
use remotehub.Connector.Access.Queries.{
  reaches, grant_devices, until_devices, until_targets, until_requests, connection_until, permitted,
}
use remotehub.Connector.Access.Until.{
  covers_time, covers_time-later, covers_time-end_at, stays_closed, device_open,
  is_some-device_until, covers_time-device_until, open_end,
}

-- Any end, seen at a time: what the end says of that time, or whether there is one.
record IsView (f : End → Bool) : Type 0 where
  of_none : f none ≡ false
  of_later : (a b : End) → f (later a b) ≡ (f a || f b)

is_some-later : (a b : End) → is_some (later a b) ≡ (is_some a || is_some b)
unfolding later
is_some-later a b = ground arith

pub any_congr {ℓ} :
    {A : Type ℓ} (p q : A → Bool) → ((x : A) → p x ≡ q x) → (xs : List A) → any p xs ≡ any q xs
any_congr p q h [] = refl
any_congr p q h (x ∷ xs) = rw (h x, any_congr p q h xs) refl

any-filter {ℓ} :
    {A : Type ℓ} (p q : A → Bool) (xs : List A) → any p (filter q xs) ≡ any (λ x. q x && p x) xs
any-filter p q [] = refl
any-filter p q (x ∷ xs) = ground (arith, any-filter p q xs)

module _ (contains_ip : Network → IpAddr → Bool) (resolve : Text → List IpAddr)
    (same_ip : IpAddr → IpAddr → Bool) (same_host : Text → Text → Bool)
    (parse_address : Text → Option Address) (name : Text) (ip : IpAddr) (port : ℕ) where
  -- The device is the connection's.
  abbrev pub hits : Device → Bool
  hits = reaches contains_ip resolve same_ip same_host parse_address name ip port

  -- The request names the connection among its targets.
  abbrev pub asks : Grant → Bool
  asks g = any hits (grant_devices contains_ip resolve same_ip same_host parse_address g)

  -- What the customer has open for the connection at a time: the whole network, a device of the list,
  -- itself or through one of its groups, or an approved request.
  unfoldable pub open_for : Snapshot → Time → Bool
  open_for s t =
      network_open s t
      || (any (λ d. device_open s d t && hits d) s.inventory.devices
          || any (λ r. is_open r.1.stored.access t && asks r.1) s.access.requests)

  module _ (f : End → Bool) (v : IsView f) where
    view-if :
        (b : Bool) (until end : End)
        → f (if b then later until end else until) ≡ (f until || (b && f end))
    view-if true until end = v.of_later until end
    view-if false until end = ground arith

    view-until_devices :
        (s : Snapshot) (now : Time) (until : End) (ds : List Device)
        → f (
            until_devices contains_ip resolve same_ip same_host parse_address s name ip port now
              until ds)
          ≡ (f until || any (λ d. hits d && f (device_until s d now)) ds)
    unfolding until_devices
    view-until_devices s now until [] = ground arith
    view-until_devices s now until (d ∷ ds) =
        view-until_devices s now (if hits d then later until (device_until s d now) else until) ds
        ∙ rw (view-if (hits d) until (device_until s d now)) (ground arith)

    view-until_targets :
        (end : Option Time) (until : End) (ds : List Device)
        → f (
            until_targets contains_ip resolve same_ip same_host parse_address name ip port end until
              ds)
          ≡ (f until || (any hits ds && f (some end)))
    unfolding until_targets
    view-until_targets end until [] = ground arith
    view-until_targets end until (d ∷ ds) =
        view-until_targets end (if hits d then later until (some end) else until) ds
        ∙ rw (view-if (hits d) until (some end)) (ground arith)

    view-until_requests :
        (until : End) (rs : List (Uuid × Grant))
        → f (
            until_requests contains_ip resolve same_ip same_host parse_address name ip port until
              rs)
          ≡ (f until || any (λ r. asks r.1 && f (some (closes_at r.1.stored.access))) rs)
    unfolding until_requests
    view-until_requests until [] = ground arith
    view-until_requests until ((id, g) ∷ rs) =
        let devices = grant_devices contains_ip resolve same_ip same_host parse_address g in
        view-until_requests
          (until_targets contains_ip resolve same_ip same_host parse_address name ip port
            (closes_at g.stored.access) until devices)
          rs
        ∙ rw (view-until_targets (closes_at g.stored.access) until devices) (ground arith)

    view-connection_until :
        (s : Snapshot) (now : Time)
        → f (
            connection_until contains_ip resolve same_ip same_host parse_address s name ip port now)
          ≡ (f (network_until s now)
              || (any
                    (λ d. is_some (device_until s d now) && (hits d && f (device_until s d now)))
                    s.inventory.devices
                  || any
                      (λ r.
                        is_open r.1.stored.access now
                        && (asks r.1 && f (some (closes_at r.1.stored.access))))
                      s.access.requests))
    unfolding connection_until open_devices open_requests
    view-connection_until s now =
        view-until_requests _ _ ∙ rw (view-until_devices, any-filter, any-filter) (ground arith)

  or_congr :
      (a b c a' b' c' : Bool) → a ≡ a' → b ≡ b' → c ≡ c' → (a || (b || c)) ≡ (a' || (b' || c'))
  or_congr a b c a' b' c' p q r = ground arith

  device_later :
      (s : Snapshot) (now t : Time) (d : Device)
      → now ≤ t
      → (is_some (device_until s d now) && (hits d && covers_time (device_until s d now) t))
        ≡ (device_open s d t && hits d)
  device_later s now t d h = ground (arith, covers_time-device_until s d now t h)

  request_later :
      (now t : Time) (a : Access) (asked : Bool)
      → now ≤ t
      → (is_open a now && (asked && covers_time (some (closes_at a)) t)) ≡ (is_open a t && asked)
  request_later now t a asked h = elim (Bool-cases (is_open a now)) [
    | inl y ↦ rw (y, open_end a now t h y) (ground arith)
    | inr n ↦ rw (n, stays_closed a now t h n) refl
  ]

  -- A connection is let through exactly if the whole network is open, or an open device of the list
  -- covers its address and port, or an open request has a target that does.
  pub permitted-eq :
      (s : Snapshot) (now : Time)
      → permitted contains_ip resolve same_ip same_host parse_address s name ip port now
        ≡ open_for s now
  unfolding permitted open_for network_open network_until
  permitted-eq s now =
      view-connection_until is_some (record { of_none = refl; of_later = is_some-later }) s now
      ∙ or_congr _ _ _ _ _ _ (ground arith)
          (any_congr _ _ (λ d. ground (arith, is_some-device_until s d now)) s.inventory.devices)
          (any_congr _ _ (λ r. ground arith) s.access.requests)

  -- The end that is told for a connection is exact: it says, of every later time, whether the
  -- connection is let through then, while nobody changes anything.
  pub connection_until_exact :
      (s : Snapshot) (now t : Time)
      → now ≤ t
      → covers_time
          (connection_until contains_ip resolve same_ip same_host parse_address s name ip port now)
          t
        ≡ permitted contains_ip resolve same_ip same_host parse_address s name ip port t
  unfolding open_for network_open network_until
  connection_until_exact s now t h =
      view-connection_until (λ e. covers_time e t)
        (record { of_none = refl; of_later = λ a b. covers_time-later a b t }) s now
      ∙ (or_congr _ _ _ _ _ _ (covers_time-end_at s.access.network.access now t h)
            (any_congr _ _ (λ d. device_later s now t d h) s.inventory.devices)
            (any_congr _ _ (λ r. request_later now t r.1.stored.access (asks r.1) h)
              s.access.requests)
          ∙ sym (permitted-eq s t))
