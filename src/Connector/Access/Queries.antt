-- ===== src/Connector/Access/Queries.antt =====
-- crates/connector/src/access.rs: what of a snapshot is open, what closes next, and what ran out; and
-- `open_until` of crates/connector/src/agent.rs, which lets a connection through or not.
use remotehub.Base.{
  ℕ, Bool, ◌&&◌, ◌||◌, not, Option, none, some, List, [], ◌∷◌, map, if◌then◌else◌, ltb, any, filter,
  is_empty,
}
use remotehub.Base.Map.{get}
use remotehub.Base.Text.{Text, text_eq}
use remotehub.Connector.Inventory.Defs.{
  Device, IpAddr, Network, Address, range, host, contains_port,
}
use remotehub.Connector.Access.Defs.{
  Time, Uuid, is_open, closes_at, Scope, Stored, RequestTarget, Grant, all_stored, Snapshot, End,
  later, network_open, network_until, device_until, is_some, open_devices, open_requests,
}

abbrev pub filter_map {ℓ κ} : {A : Type ℓ} {B : Type κ} → (A → Option B) → List A → List B
filter_map f [] = []
filter_map f (x ∷ xs) = let rest = filter_map f xs in elim (f x) [ none ↦ rest | some y ↦ y ∷ rest ]

-- `get(name)?.access`, kept if it is open.
abbrev pub open_group : Text → Time → Option Stored → Option (Text × Option Time)
open_group name now none = none
open_group name now (some s) =
    if is_open s.access now then some (name, closes_at s.access) else none

unfoldable pub open_groups : Snapshot → Time → List (Text × Option Time)
open_groups s now =
    filter_map (λ name. open_group name now (get s.access.groups name)) s.inventory.groups

unfoldable pub any_open : Snapshot → Time → Bool
unfolding network_open open_devices open_requests
any_open s now =
    network_open s now
    || (not (is_empty (open_devices s now)) || not (is_empty (open_requests s now)))

-- `Iterator::min`
abbrev pub earlier : Time → Option Time → Option Time
earlier a none = some a
earlier a (some b) = some (if ltb b a then b else a)

abbrev pub earlier_end : Option Time → Option Time → Option Time
earlier_end none rest = rest
earlier_end (some a) rest = earlier a rest

-- The ends of what is open, and the least of them.
unfoldable pub least_end : List (Scope × Stored) → Time → Option Time
least_end [] now = none
least_end ((scope, stored) ∷ rest) now =
    let others = least_end rest now in
    if is_open stored.access now then earlier_end (closes_at stored.access) others else others

unfoldable pub next_end : Snapshot → Time → Option Time
next_end s now = least_end (all_stored s.access) now

abbrev pub is_over : Time → Scope × Stored → Bool
is_over now entry = is_some (closes_at entry.1.access) && not (is_open entry.1.access now)

unfoldable pub ran_out : Snapshot → Time → List Scope
ran_out s now = map (λ entry. entry.0) (filter (is_over now) (all_stored s.access))

-- What the code asks of others: whether a range covers an address (`Network::contains`), the
-- addresses of a host name in this network, whether two host names are the same but for the case, and
-- the address that a text names, if it is one.
module _ (contains_ip : Network → IpAddr → Bool) (resolve : Text → List IpAddr)
    (same_ip : IpAddr → IpAddr → Bool) (same_host : Text → Text → Bool)
    (parse_address : Text → Option Address) where
  -- `Address::covers`
  unfoldable pub covers : Address → Text → IpAddr → List IpAddr → Bool
  covers (range net) name ip resolved = contains_ip net ip
  covers (host own) name ip resolved = same_host own name || any (λ r. same_ip r ip) resolved

  abbrev pub resolved_of : Address → List IpAddr
  resolved_of (host name) = resolve name
  resolved_of (range net) = []

  -- A device that the address and the port of a connection belong to.
  abbrev pub reaches : Text → IpAddr → ℕ → Device → Bool
  reaches name ip port d =
      any (λ p. contains_port p port) d.ports && covers d.address name ip (resolved_of d.address)

  -- `Grant::devices`: a target whose host is no address is left out.
  abbrev pub target_device : RequestTarget → Option Address → Option Device
  target_device t none = none
  target_device t (some address) = some (record {
    name = t.name;
    address = address;
    ports = record { first = t.port; last = t.port } ∷ [];
    groups = [];
  })

  unfoldable pub grant_devices : Grant → List Device
  grant_devices g = filter_map (λ t. target_device t (parse_address t.host)) g.targets

  -- The loop over the open devices of the list.
  unfoldable pub until_devices : Snapshot → Text → IpAddr → ℕ → Time → End → List Device → End
  until_devices s name ip port now until [] = until
  until_devices s name ip port now until (d ∷ ds) =
      until_devices s name ip port now
        (if reaches name ip port d then later until (device_until s d now) else until) ds

  -- The inner loop, over the targets of one approved request.
  unfoldable pub until_targets : Text → IpAddr → ℕ → Option Time → End → List Device → End
  until_targets name ip port end until [] = until
  until_targets name ip port end until (d ∷ ds) =
      until_targets name ip port end
        (if reaches name ip port d then later until (some end) else until) ds

  -- The loop over the open requests.
  unfoldable pub until_requests : Text → IpAddr → ℕ → End → List (Uuid × Grant) → End
  until_requests name ip port until [] = until
  until_requests name ip port until ((id, g) ∷ rest) =
      until_requests name ip port
        (until_targets name ip port (closes_at g.stored.access) until (grant_devices g)) rest

  unfoldable pub connection_until : Snapshot → Text → IpAddr → ℕ → Time → End
  connection_until s name ip port now =
      until_requests name ip port
        (until_devices s name ip port now (network_until s now) (open_devices s now))
        (open_requests s now)

  unfoldable pub permitted : Snapshot → Text → IpAddr → ℕ → Time → Bool
  permitted s name ip port now = is_some (connection_until s name ip port now)
