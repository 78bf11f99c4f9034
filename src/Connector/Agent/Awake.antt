-- ===== src/Connector/Agent/Awake.antt =====
-- Why a round of `while_open` of crates/connector/src/agent.rs may sleep until the next end: until then
-- every connection is let through or not as it was.
use remotehub.Base.{
  ℕ, suc, ◌≤◌, Bool, true, false, ◌&&◌, ◌||◌, not, Option, none, some, List, [], ◌∷◌, ◌++◌,
  if◌then◌else◌, ltb, any, arith, ◌≡◌, refl, sym, ap, ◌∙◌, Bool-cases, Option-cases, inl, inr,
  nat_eq, HasEq, ◌==◌,
}
use remotehub.Base.Map.{HashMap, get}
use remotehub.Base.Text.{Text, text_eq}
use remotehub.Connector.Inventory.Defs.{Device, IpAddr, Network, Address}
use remotehub.Connector.Access.Defs.{
  Time, Uuid, Access, is_open, closes_at, Scope, network, device_scope, group_scope, request_scope,
  Stored, no_access, Grant, AccessFile, stored_at, entries, all_stored, Snapshot, network_open,
  scopes_of,
}
use remotehub.Connector.Access.Queries.{next_end, permitted}
use remotehub.Connector.Access.Until.{device_open}
use remotehub.Connector.Access.Permit.{open_for, permitted-eq, hits, asks, any_congr}
use remotehub.Connector.Access.NextEnd.{holds, least_end-not_before}

-- Before an end: none is never over.
abbrev pub before_end : Time → Option Time → Bool
before_end t none = true
before_end t (some end) = ltb t end

-- Open at one time as at another.
abbrev steady : Time → Time → Access → Bool
steady now t a = if is_open a t then is_open a now else not (is_open a now)

-- What has an end that is not over yet is steady.
steady-lem :
    (a : Access) (now t : Time)
    → now ≤ t
    → (is_open a now && holds (λ v. ltb v (suc t)) (closes_at a)) ≡ false
    → is_open a t ≡ is_open a now
unfolding is_open closes_at
steady-lem a now t h e = ground arith

any-append {ℓ} :
    {A : Type ℓ} (p : A → Bool) (xs ys : List A) → any p (xs ++ ys) ≡ (any p xs || any p ys)
any-append p [] ys = refl
any-append p (x ∷ xs) ys = ground (arith, any-append p xs ys)

-- What holds of no entry holds of none that is found.
entries-get :
    {K : Type 0} {V : Type 0} ⦃e : HasEq K⦄ (scope : K → Scope) (stored : V → Stored)
    (q : Stored → Bool) (m : HashMap K V) (k : K) (v : V)
    → any (λ x. q x.1) (entries scope stored m) ≡ false
    → get m k ≡ some v
    → q (stored v) ≡ false
unfolding get
entries-get scope stored q [] k v h g = cc
entries-get scope stored q ((j, w) ∷ m) k v h g = elim (Bool-cases (j == k)) [
  | inl y ↦ ground arith
  | inr n ↦ ground (arith, entries-get scope stored q m k v)
]

-- The parts of what is stored.
record Clear (q : Stored → Bool) (file : AccessFile) : Type 0 where
  network : q file.network ≡ false
  devices : any (λ x. q x.1) (entries device_scope (λ s. s) file.devices) ≡ false
  groups : any (λ x. q x.1) (entries group_scope (λ s. s) file.groups) ≡ false
  requests : any (λ x. q x.1) (entries request_scope (λ g. g.stored) file.requests) ≡ false

all_stored-Clear :
    (q : Stored → Bool) (file : AccessFile)
    → any (λ x. q x.1) (all_stored file) ≡ false
    → Clear q file
unfolding all_stored
all_stored-Clear q file h = ground (
  arith,
  any-append (λ x. q x.1) (entries device_scope (λ s. s) file.devices)
      (entries group_scope (λ s. s) file.groups
        ++ entries request_scope (λ g. g.stored) file.requests),
  any-append (λ x. q x.1) (entries group_scope (λ s. s) file.groups)
      (entries request_scope (λ g. g.stored) file.requests),
)

stored_at-Clear :
    (q : Stored → Bool) (file : AccessFile) (scope : Scope)
    → q no_access ≡ false
    → Clear q file
    → q (stored_at file scope) ≡ false
unfolding stored_at
stored_at-Clear q file network n c = c.network
stored_at-Clear q file (device_scope k) n c = elim (Option-cases (get file.devices k)) [
  | inl e ↦ rw e n
  | inr (s, e) ↦ rw e (entries-get device_scope (λ s. s) q file.devices k s c.devices e)
]
stored_at-Clear q file (group_scope k) n c = elim (Option-cases (get file.groups k)) [
  | inl e ↦ rw e n
  | inr (s, e) ↦ rw e (entries-get group_scope (λ s. s) q file.groups k s c.groups e)
]
stored_at-Clear q file (request_scope k) n c = elim (Option-cases (get file.requests k)) [
  | inl e ↦ rw e n
  | inr (g, e) ↦ rw e (entries-get request_scope (λ g. g.stored) q file.requests k g c.requests e)
]

-- An end that is not over at the later time.
abbrev over_by : Time → Time → Stored → Bool
over_by now t s = is_open s.access now && holds (λ v. ltb v (suc t)) (closes_at s.access)

next_end-Clear :
    (s : Snapshot) (now t : Time)
    → before_end t (next_end s now) ≡ true
    → Clear (over_by now t) s.access
unfolding next_end
next_end-Clear s now t h =
    all_stored-Clear (over_by now t) s.access
      (ground (arith, least_end-not_before (all_stored s.access) now (suc t)))

network_steady :
    (s : Snapshot) (now t : Time)
    → now ≤ t
    → Clear (over_by now t) s.access
    → network_open s t ≡ network_open s now
unfolding network_open
network_steady s now t h c = steady-lem s.access.network.access now t h c.network

device_steady :
    (s : Snapshot) (now t : Time) (d : Device)
    → now ≤ t
    → Clear (over_by now t) s.access
    → device_open s d t ≡ device_open s d now
unfolding is_open
device_steady s now t d h c =
    any_congr _ _
      (λ scope.
        steady-lem (stored_at s.access scope).access now t h
          (stored_at-Clear (over_by now t) s.access scope refl c))
      (scopes_of d)

requests_steady :
    (asked : Grant → Bool) (now t : Time) (rs : List (Uuid × Grant))
    → now ≤ t
    → any (λ x. over_by now t x.1) (entries request_scope (λ g. g.stored) rs) ≡ false
    → any (λ r. is_open r.1.stored.access t && asked r.1) rs
      ≡ any (λ r. is_open r.1.stored.access now && asked r.1) rs
requests_steady asked now t [] h c = refl
requests_steady asked now t ((id, g) ∷ rs) h c =
    ground (arith, requests_steady asked now t rs h, steady-lem g.stored.access now t h)

module _ (contains_ip : Network → IpAddr → Bool) (resolve : Text → List IpAddr)
    (same_ip : IpAddr → IpAddr → Bool) (same_host : Text → Text → Bool)
    (parse_address : Text → Option Address) where
  open_for_steady :
      (s : Snapshot) (now t : Time) (name : Text) (ip : IpAddr) (port : ℕ)
      → now ≤ t
      → Clear (over_by now t) s.access
      → open_for contains_ip resolve same_ip same_host parse_address name ip port s t
        ≡ open_for contains_ip resolve same_ip same_host parse_address name ip port s now
  unfolding open_for
  open_for_steady s now t name ip port h c =
      rw
        (
          network_steady s now t h c,
          any_congr _ _
              (λ d.
                ap
                  (λ b.
                    b && hits contains_ip resolve same_ip same_host parse_address name ip port d)
                  (device_steady s now t d h c))
              s.inventory.devices,
          requests_steady (asks contains_ip resolve same_ip same_host parse_address name ip port)
              now t s.access.requests h c.requests,
        )
        refl

  -- Before the next end, while nobody changes anything, a connection is let through exactly if it is
  -- now.
  pub permitted_until_next_end :
      (s : Snapshot) (now t : Time) (name : Text) (ip : IpAddr) (port : ℕ)
      → now ≤ t
      → before_end t (next_end s now) ≡ true
      → permitted contains_ip resolve same_ip same_host parse_address s name ip port t
        ≡ permitted contains_ip resolve same_ip same_host parse_address s name ip port now
  permitted_until_next_end s now t name ip port h e =
      permitted-eq contains_ip resolve same_ip same_host parse_address name ip port s t
      ∙ (open_for_steady s now t name ip port h (next_end-Clear s now t e)
          ∙ sym
              (permitted-eq contains_ip resolve same_ip same_host parse_address name ip port s now))
