-- ===== src/Connector/Agent/Listed.antt =====
-- The addresses that `resolve_target` of crates/connector/src/agent.rs keeps: each is looked at with a
-- reading of the clock of its own.
use remotehub.Base.{
  ℕ, suc, Bool, ◌||◌, Option, none, some, List, [], ◌∷◌, if◌then◌else◌, is_empty, not, arith, ◌≡◌,
  refl, ap, ◌∙◌,
}
use remotehub.Base.Text.{Text}
use remotehub.Connector.Inventory.Defs.{IpAddr, Network, Address}
use remotehub.Connector.Access.Defs.{Time, Snapshot, End, later, is_some}
use remotehub.Connector.Access.Queries.{connection_until, permitted}
use remotehub.Connector.Agent.Reach.{SocketAddr, add_open, later_open, open_addresses}

module _ (contains_ip : Network → IpAddr → Bool) (resolve : Text → List IpAddr)
    (same_ip : IpAddr → IpAddr → Bool) (same_host : Text → Text → Bool)
    (parse_address : Text → Option Address) (s : Snapshot) (host : Text) (port : ℕ) where
  -- Whether a connection to the address is let through at a time.
  abbrev pub let_through : Time → SocketAddr → Bool
  let_through t a = permitted contains_ip resolve same_ip same_host parse_address s host a.ip port t

  -- The addresses that are let through at their own readings, from the k-th reading on.
  abbrev pub open_when_read : (ℕ → Time) → ℕ → List SocketAddr → List SocketAddr
  open_when_read clock k [] = []
  open_when_read clock k (a ∷ rest) =
      if let_through (clock k) a
      then a ∷ open_when_read clock (suc k) rest
      else open_when_read clock (suc k) rest

  add_open-is_some :
      (a : SocketAddr) (end : End) (more : List SocketAddr)
      → add_open a end more ≡ (if is_some end then a ∷ more else more)
  add_open-is_some a none more = refl
  add_open-is_some a (some end) more = refl

  is_some-later_open :
      (until end : End) → is_some (later_open until end) ≡ (is_some until || is_some end)
  unfolding later
  is_some-later_open until end = ground arith

  -- The addresses that are kept are those, in their order.
  pub open_addresses-open_when_read :
      (clock : ℕ → Time) (k : ℕ) (until : End) (addresses : List SocketAddr)
      → (open_addresses contains_ip resolve same_ip same_host parse_address s host port clock k
          until addresses).0
        ≡ open_when_read clock k addresses
  unfolding open_addresses permitted
  open_addresses-open_when_read clock k until [] = refl
  open_addresses-open_when_read clock k until (a ∷ rest) =
      let end =
        connection_until contains_ip resolve same_ip same_host parse_address s host a.ip port
          (clock k) in
      add_open-is_some a end _
      ∙ ap (λ xs. if is_some end then a ∷ xs else xs)
          (open_addresses-open_when_read clock (suc k) (later_open until end) rest)

  is_empty-kept :
      (u opened : Bool) (a : SocketAddr) (more : List SocketAddr)
      → (u || opened || not (is_empty more))
        ≡ (u || not (is_empty (if opened then a ∷ more else more)))
  is_empty-kept u opened a more = ground arith

  -- There is an end exactly if an address is kept.
  pub is_some-open_addresses :
      (clock : ℕ → Time) (k : ℕ) (until : End) (addresses : List SocketAddr)
      → is_some
          (open_addresses contains_ip resolve same_ip same_host parse_address s host port clock k
            until addresses).1
        ≡ (is_some until || not (is_empty (open_when_read clock k addresses)))
  unfolding open_addresses permitted
  is_some-open_addresses clock k until [] = ground arith
  is_some-open_addresses clock k until (a ∷ rest) =
      let end =
        connection_until contains_ip resolve same_ip same_host parse_address s host a.ip port
          (clock k) in
      is_some-open_addresses clock (suc k) (later_open until end) rest
      ∙ rw (is_some-later_open until end)
          (is_empty-kept (is_some until) (is_some end) a (open_when_read clock (suc k) rest))
