-- ===== src/Connector/Agent/Kept.antt =====
-- `while_open` of crates/connector/src/agent.rs: what a round leaves of the connections that are carried.
use remotehub.Base.{
  ℕ, ◌≤◌, Bool, true, false, ◌||◌, ◌&&◌, filter, any, is_empty, not, Option, none, some, List, [],
  ◌∷◌, if◌then◌else◌, arith, ◌≡◌, refl, ◌∙◌, Bool-cases, inl, inr, nat_eq, ◌==◌,
}
use remotehub.Base.Map.{get}
use remotehub.Base.Text.{Text}
use remotehub.Connector.Inventory.Defs.{IpAddr, Network, Address}
use remotehub.Connector.Access.Defs.{
  Time, Uuid, Snapshot, is_open, is_some, device_until, open_devices, open_requests,
}
use remotehub.Connector.Access.Until.{device_open, is_some-device_until}
use remotehub.Connector.Access.Permit.{
  open_for, permitted-eq, hits, asks, any_congr, connection_until_exact,
}
use remotehub.Connector.Access.Queries.{next_end, any_open, permitted}
use remotehub.Connector.Agent.Tunnel.{
  Running, Connections, passes, end_closed, all_closed, sleeps, while_open_round,
}
use remotehub.Connector.Agent.Awake.{before_end, permitted_until_next_end}

before_end_mono :
    (a b : Time) (end : Option Time) → a ≤ b → before_end b end ≡ true → before_end a end ≡ true
before_end_mono a b none h e = refl
before_end_mono a b (some t) h e = ground arith

abbrev pub ends_unless : Bool → Running → Running
ends_unless passed r = record r { ended = r.ended || not passed }

ends_unless-if :
    (b : Bool) (r : Running) → (if b then r else record r { ended = true }) ≡ ends_unless b r
ends_unless-if b r = ground arith

is_empty-filter {ℓ} :
    {A : Type ℓ} (p : A → Bool) (xs : List A) → is_empty (filter p xs) ≡ not (any p xs)
is_empty-filter p [] = refl
is_empty-filter p (x ∷ xs) = ground (arith, is_empty-filter p xs)

any-narrowed {ℓ} :
    {A : Type ℓ} (p q : A → Bool) (xs : List A)
    → any p xs ≡ false
    → any (λ x. p x && q x) xs ≡ false
any-narrowed p q [] h = refl
any-narrowed p q (x ∷ xs) h = ground (arith, any-narrowed p q xs)

module _ (contains_ip : Network → IpAddr → Bool) (resolve : Text → List IpAddr)
    (same_ip : IpAddr → IpAddr → Bool) (same_host : Text → Text → Bool)
    (parse_address : Text → Option Address) where
  get-end_closed :
      (s : Snapshot) (clock : Uuid → Time) (cs : Connections) (id : Uuid) (r : Running)
      → get cs id ≡ some r
      → get (end_closed contains_ip resolve same_ip same_host parse_address s clock cs) id
        ≡ some (
            ends_unless
              (passes contains_ip resolve same_ip same_host parse_address s r.reached (clock id))
              r)
  unfolding get end_closed
  get-end_closed s clock [] id r h = ground arith
  get-end_closed s clock ((j, q) ∷ rest) id r h = elim (Bool-cases (j == id)) [
    | inl y ↦ ground (
      arith,
      nat_eq.test_iff j id,
      ends_unless-if
          (passes contains_ip resolve same_ip same_host parse_address s r.reached (clock id)) r,
    )
    | inr n ↦ ground (arith, get-end_closed s clock rest id r)
  ]

  sleeps_inv :
      (s : Snapshot) (now : Time) (clock : Uuid → Time) (cs left : Connections) (end : Option Time)
      → while_open_round contains_ip resolve same_ip same_host parse_address s now clock cs
        ≡ sleeps left end
      → (end_closed contains_ip resolve same_ip same_host parse_address s clock cs ≡ left)
        × (next_end s now ≡ end)
  unfolding while_open_round
  sleeps_inv s now clock cs left end h = ground arith

  over_inv :
      (s : Snapshot) (now : Time) (clock : Uuid → Time) (cs : Connections)
      → while_open_round contains_ip resolve same_ip same_host parse_address s now clock cs
        ≡ all_closed
      → any_open s now ≡ false
  unfolding while_open_round
  over_inv s now clock cs h = ground arith

  nothing_now :
      (s : Snapshot) (now : Time) (name : Text) (ip : IpAddr) (port : ℕ)
      → any_open s now ≡ false
      → open_for contains_ip resolve same_ip same_host parse_address name ip port s now ≡ false
  unfolding any_open open_for open_devices open_requests
  nothing_now s now name ip port h = ground (
    arith,
    is_empty-filter (λ d. is_some (device_until s d now)) s.inventory.devices,
    is_empty-filter (λ r. is_open r.1.stored.access now) s.access.requests,
    any_congr _ _ (λ d. is_some-device_until s d now) s.inventory.devices,
    any-narrowed (λ d. device_open s d now)
        (hits contains_ip resolve same_ip same_host parse_address name ip port) s.inventory.devices,
    any-narrowed (λ r. is_open r.1.stored.access now)
        (λ r. asks contains_ip resolve same_ip same_host parse_address name ip port r.1)
        s.access.requests,
  )

  nothing_later :
      (s : Snapshot) (now t : Time) (name : Text) (ip : IpAddr) (port : ℕ)
      → now ≤ t
      → permitted contains_ip resolve same_ip same_host parse_address s name ip port now ≡ false
      → permitted contains_ip resolve same_ip same_host parse_address s name ip port t ≡ false
  unfolding permitted
  nothing_later s now t name ip port h n = ground (
    arith,
    connection_until_exact contains_ip resolve same_ip same_host parse_address name ip port s now t
        h,
  )

  -- At every time from the look at a connection to the next end, a round of `while_open` that sleeps
  -- leaves the connection ended if it was, or if it is not let through then, and as it was if it is.
  -- That holds while nobody changes anything, which wakes the round, and names resolve alike.
  pub while_open_round_exact :
      (s : Snapshot) (now t : Time) (clock : Uuid → Time) (cs left : Connections)
      (end : Option Time) (id : Uuid) (r : Running)
      → while_open_round contains_ip resolve same_ip same_host parse_address s now clock cs
        ≡ sleeps left end
      → get cs id ≡ some r
      → now ≤ clock id
      → clock id ≤ t
      → before_end t end ≡ true
      → get left id
        ≡ some (
            ends_unless
              (passes contains_ip resolve same_ip same_host parse_address s r.reached t)
              r)
  while_open_round_exact s now t clock cs left end id r h g a b e =
      let at = permitted_until_next_end contains_ip resolve same_ip same_host parse_address s now in
      let inv = sleeps_inv s now clock cs left end h in
      rw
        (
          ← inv.0,
          get-end_closed s clock cs id r g,
          at (clock id) r.reached.host r.reached.ip r.reached.port a
              (rw inv.1 (before_end_mono (clock id) t end b e)),
          at t r.reached.host r.reached.ip r.reached.port (omega arith) (rw inv.1 e),
        )
        refl

  -- A round of `while_open` that is over finds nothing open: no connection is let through any more,
  -- while nobody changes anything.
  pub while_open_round_over :
      (s : Snapshot) (now t : Time) (clock : Uuid → Time) (cs : Connections) (name : Text)
      (ip : IpAddr) (port : ℕ)
      → while_open_round contains_ip resolve same_ip same_host parse_address s now clock cs
        ≡ all_closed
      → now ≤ t
      → permitted contains_ip resolve same_ip same_host parse_address s name ip port t ≡ false
  while_open_round_over s now t clock cs name ip port h a = nothing_later s now t name ip port a (
      permitted-eq contains_ip resolve same_ip same_host parse_address name ip port s now
      ∙ nothing_now s now name ip port (over_inv s now clock cs h))
