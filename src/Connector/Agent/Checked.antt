-- ===== src/Connector/Agent/Checked.antt =====
-- What `resolve_target` of crates/connector/src/agent.rs says of a target stays true until something
-- is changed.
use remotehub.Base.{
  ℕ, suc, ◌≤◌, Bool, true, false, ◌||◌, Option, none, some, List, [], ◌∷◌, if◌then◌else◌, any,
  filter, is_empty, not, arith, ◌≡◌, refl, ap, sym, ◌∙◌,
}
use remotehub.Base.Text.{Text}
use remotehub.Connector.Inventory.Defs.{IpAddr, Network, Address}
use remotehub.Connector.Access.Defs.{Time, Snapshot, End, is_some}
use remotehub.Connector.Access.Queries.{connection_until}
use remotehub.Connector.Access.Until.{covers_time, covers_time-later}
use remotehub.Connector.Access.Permit.{connection_until_exact}
use remotehub.Connector.Agent.Listed.{
  let_through, open_when_read, open_addresses-open_when_read, is_some-open_addresses,
}
use remotehub.Connector.Agent.Reach.{
  SocketAddr, Refusal, Resolved, Reached, reached, refused, host_and_port, Lookup, found, add_open,
  later_open, of_open, open_addresses, is_allowed, of_allowed, resolve_target,
}

-- What an answer says of a time, of a target's host and port and its allowed addresses: `passes` are
-- those that are let through then, `opened` those that were when the clock was read for each. A refusal
-- for want of an open address is told from that for want of an allowed one.
abbrev pub Says :
    (SocketAddr → Bool) → Text → ℕ → List SocketAddr → List SocketAddr → Time → Reached → Type 0
Says passes host port allowed opened t (reached r) =
    (r.host ≡ host)
    × (r.port ≡ port)
    × (r.addresses ≡ opened)
    × (is_empty opened ≡ false)
    × (covers_time (some r.until) t ≡ any passes allowed)
    × (filter passes r.addresses ≡ filter passes allowed)
Says passes host port allowed opened t (refused r) =
    (is_empty opened ≡ true) × (r.not_open ≡ not (is_empty allowed)) × (any passes allowed ≡ false)

module _ (contains_ip : Network → IpAddr → Bool) (resolve : Text → List IpAddr)
    (same_ip : IpAddr → IpAddr → Bool) (same_host : Text → Text → Bool)
    (parse_address : Text → Option Address) (s : Snapshot) (host : Text) (port : ℕ) where
  covers_time-later_open :
      (until end : End) (t : Time)
      → covers_time (later_open until end) t ≡ (covers_time until t || covers_time end t)
  covers_time-later_open until none t = ground arith
  covers_time-later_open until (some e) t = covers_time-later until (some e) t

  module _ (clock : ℕ → Time) (t : Time) (read_before : (k : ℕ) → clock k ≤ t) where
    abbrev passing : SocketAddr → Bool
    passing = let_through contains_ip resolve same_ip same_host parse_address s host port t

    abbrev end_at_reading : ℕ → SocketAddr → End
    end_at_reading k a =
        connection_until contains_ip resolve same_ip same_host parse_address s host a.ip port
          (clock k)

    covers_time-end_at_reading :
        (k : ℕ) (a : SocketAddr) → covers_time (end_at_reading k a) t ≡ passing a
    covers_time-end_at_reading k a =
        connection_until_exact contains_ip resolve same_ip same_host parse_address host a.ip port s
          (clock k) t (read_before k)

    open_addresses-covers :
        (k : ℕ) (until : End) (addresses : List SocketAddr)
        → covers_time
            (open_addresses contains_ip resolve same_ip same_host parse_address s host port clock k
              until addresses).1
            t
          ≡ (covers_time until t || any (passing) addresses)
    unfolding open_addresses
    open_addresses-covers k until [] = ground arith
    open_addresses-covers k until (a ∷ rest) =
        open_addresses-covers (suc k) (later_open until (end_at_reading k a)) rest
        ∙ rw (covers_time-later_open until (end_at_reading k a) t, covers_time-end_at_reading k a)
            (ground arith)

    add_open-filter :
        (a : SocketAddr) (end : End) (more : List SocketAddr)
        → covers_time end t ≡ passing a
        → filter (passing) (add_open a end more)
          ≡ (if passing a then a ∷ filter (passing) more else filter (passing) more)
    add_open-filter a none more e = rw (← e) refl
    add_open-filter a (some end) more e = refl

    open_addresses-filter :
        (k : ℕ) (until : End) (addresses : List SocketAddr)
        → filter
            (passing)
            (open_addresses contains_ip resolve same_ip same_host parse_address s host port clock k
              until addresses).0
          ≡ filter (passing) addresses
    unfolding open_addresses
    open_addresses-filter k until [] = refl
    open_addresses-filter k until (a ∷ rest) =
        add_open-filter a (end_at_reading k a) _ (covers_time-end_at_reading k a)
        ∙ ap (λ xs. if passing a then a ∷ xs else xs)
            (open_addresses-filter (suc k) (later_open until (end_at_reading k a)) rest)

    of_open-exact :
        (r : Resolved) (found : List SocketAddr × End)
        → of_open host port found ≡ reached r
        → (r.host ≡ host) × (r.port ≡ port) × (r.addresses ≡ found.0) × (some r.until ≡ found.1)
    of_open-exact r (xs, none) e = ground (arith, e)
    of_open-exact r (xs, some u) e = ground (arith, e)

    of_open-refused :
        (r : Refusal) (found : List SocketAddr × End)
        → of_open host port found ≡ refused r
        → (found.1 ≡ none) × (r.not_open ≡ true)
    of_open-refused r (xs, none) e = ground (arith, e)
    of_open-refused r (xs, some u) e = ground (arith, e)

    abbrev the_answer : List SocketAddr → Reached
    the_answer = of_allowed contains_ip resolve same_ip same_host parse_address s host port clock

    abbrev opened_of : List SocketAddr → List SocketAddr
    opened_of =
        open_when_read contains_ip resolve same_ip same_host parse_address s host port clock 0

    has_end :
        (addresses : List SocketAddr) (end : End)
        → end
          ≡ (open_addresses contains_ip resolve same_ip same_host parse_address s host port clock 0
              none addresses).1
        → is_some end ≡ not (is_empty (opened_of addresses))
    has_end addresses end e =
        ap is_some e
        ∙ is_some-open_addresses contains_ip resolve same_ip same_host parse_address s host port
            clock 0 none addresses

    kept_some : (empty : Bool) → true ≡ not empty → empty ≡ false
    kept_some empty e = ground (arith, e)

    kept_none : (empty : Bool) → false ≡ not empty → empty ≡ true
    kept_none empty e = ground (arith, e)

    of_allowed-Says :
        (answer : Reached) (addresses : List SocketAddr)
        → the_answer addresses ≡ answer
        → Says (passing) host port addresses (opened_of addresses) t answer
    of_allowed-Says (reached r) [] e = ground (arith, e)
    of_allowed-Says (reached r) (a ∷ rest) e =
        let (same_name, same_port, same, last) = of_open-exact r _ e in
        (
          same_name,
          same_port,
          same
              ∙ open_addresses-open_when_read contains_ip resolve same_ip same_host parse_address s
                  host port clock 0 none (a ∷ rest),
          kept_some _ (has_end (a ∷ rest) (some r.until) last),
          ap (λ end. covers_time end t) last ∙ open_addresses-covers 0 none (a ∷ rest),
          ap (filter (passing)) same ∙ open_addresses-filter 0 none (a ∷ rest),
        )
    of_allowed-Says (refused r) [] e = ground (arith, e)
    of_allowed-Says (refused r) (a ∷ rest) e =
        let (no_end, why) = of_open-refused r _ e in
        (
          kept_none _ (has_end (a ∷ rest) none (sym no_end)),
          why,
          sym (open_addresses-covers 0 none (a ∷ rest)) ∙ ap (λ end. covers_time end t) no_end,
        )

module _ (contains_ip : Network → IpAddr → Bool) (resolve : Text → List IpAddr)
    (same_ip : IpAddr → IpAddr → Bool) (same_host : Text → Text → Bool)
    (parse_address : Text → Option Address) where
  -- A target that is a host and a port, and whose lookup gives addresses: it is reached exactly if one
  -- of the allowed addresses is let through at its own reading of the clock. If it is reached, the host
  -- and port are the target's, the addresses that are told are all the allowed ones that are let
  -- through at their readings and no other, in their order, and, at every time from the last reading
  -- on and while nothing is changed, the end that is told says whether any of the allowed addresses is
  -- let through, and none of those let through then is missing. If it is refused, none is let through
  -- then either, and it is told as not open exactly if some address is allowed.
  pub resolve_target_exact :
      (allow : List Network) (s : Snapshot) (lookup : Text → Lookup) (clock : ℕ → Time)
      (target host : Text) (port : ℕ) (addresses : List SocketAddr) (t : Time)
      → ((k : ℕ) → clock k ≤ t)
      → host_and_port target ≡ some (host, port)
      → lookup target ≡ found addresses
      → let allowed =
          filter (is_allowed contains_ip resolve same_ip same_host parse_address allow) addresses in
        let passes =
          let_through contains_ip resolve same_ip same_host parse_address s host port t in
        let opened =
          open_when_read contains_ip resolve same_ip same_host parse_address s host port clock 0
            allowed in
        Says passes host port allowed opened t (
          resolve_target contains_ip resolve same_ip same_host parse_address allow s lookup clock
            target)
  unfolding resolve_target
  resolve_target_exact allow s lookup clock target host port addresses t before parsed looked =
      rw (parsed, looked, resolve_target)
        (of_allowed-Says contains_ip resolve same_ip same_host parse_address s host port clock t
          before _
          (filter (is_allowed contains_ip resolve same_ip same_host parse_address allow) addresses)
          refl)
