-- ===== src/Connector/Agent/Reach.antt =====
-- `resolve_target` of crates/connector/src/agent.rs: the addresses of a target that the connector may
-- connect to now, and how long. Each address is looked at with a reading of the clock of its own. What
-- a name resolves to, in time or not, is a parameter.
use remotehub.Base.{
  ℕ, suc, Bool, true, false, ◌||◌, Option, none, some, List, [], ◌∷◌, ◌++◌, if◌then◌else◌, ◌=?◌,
  any, filter, is_empty,
}
use remotehub.Base.Text.{Text, text, trim_start_by, trim_end_by}
use remotehub.Base.Decimal.{parse_uint}
use remotehub.Connector.Inventory.Defs.{IpAddr, Network, Address}
use remotehub.Connector.Access.Defs.{Time, Uuid, Snapshot, End, later}
use remotehub.Connector.Access.Queries.{connection_until}

pub record SocketAddr : Type 0 where
  pub ip : IpAddr
  pub port : ℕ

pub record Refusal : Type 0 where
  pub reason : Text
  pub not_open : Bool

pub record Resolved : Type 0 where
  pub host : Text
  pub port : ℕ
  pub addresses : List SocketAddr
  pub until : Option Time

pub data Reached : Type 0 where
  reached : Resolved → Reached
  refused : Refusal → Reached

unfoldable pub rsplit_once : ℕ → Text → Option (Text × Text)
rsplit_once sep [] = none
rsplit_once sep (c ∷ s) = elim (rsplit_once sep s) [
  | some (a, b) ↦ some (c ∷ a, b)
  | none ↦ if c =? sep then some ([], s) else none
]

abbrev pub is_bracket : ℕ → Bool
is_bracket c = (c =? b'[') || (c =? b']')

abbrev pub with_port : Text → Option ℕ → Option (Text × ℕ)
with_port host none = none
with_port host (some port) = some (trim_end_by is_bracket (trim_start_by is_bracket host), port)

unfoldable pub host_and_port : Text → Option (Text × ℕ)
unfolding rsplit_once parse_uint
host_and_port target = elim (rsplit_once b':' target) [
  | none ↦ none
  | some (host, port) ↦ with_port host (parse_uint 65_535 port)
]

abbrev pub refuse_for : Text → Reached
refuse_for reason = refused (record { reason = reason; not_open = false })

-- What the lookup of the target gives: its addresses, or why there are none.
pub data Lookup : Type 0 where
  found : List SocketAddr → Lookup
  not_found : Text → Lookup

-- The answer to `Control::Check`: whether the target is open, and until when.
pub record Checked : Type 0 where
  pub id : Uuid
  pub opened : Bool
  pub until : Option Text

abbrev pub format_end : (Time → Option Text) → Option Time → Option Text
format_end format none = none
format_end format (some at) = format at

abbrev pub checked_of : (Time → Option Text) → Uuid → Reached → Checked
checked_of format id (reached r) = record {
  id = id;
  opened = true;
  until = format_end format r.until;
}
checked_of format id (refused r) = record { id = id; opened = false; until = none }

abbrev pub add_open : SocketAddr → End → List SocketAddr → List SocketAddr
add_open address none rest = rest
add_open address (some end) rest = address ∷ rest

-- `later`, with the end of an address that is let through.
abbrev pub later_open : End → End → End
later_open until none = until
later_open until (some end) = later until (some end)

abbrev pub of_open : Text → ℕ → List SocketAddr × End → Reached
of_open host port (addresses, none) =
    refused (record { reason = text "not opened"; not_open = true })
of_open host port (addresses, some until) =
    reached (record { host = host; port = port; addresses = addresses; until = until })

module _ (contains_ip : Network → IpAddr → Bool) (resolve : Text → List IpAddr)
    (same_ip : IpAddr → IpAddr → Bool) (same_host : Text → Text → Bool)
    (parse_address : Text → Option Address) where
  -- The addresses that the allowed ranges cover; no range allows all.
  abbrev pub is_allowed : List Network → SocketAddr → Bool
  is_allowed allow address = is_empty allow || any (λ n. contains_ip n address.ip) allow

  -- The loop over the allowed addresses: those that are let through, and the latest end. The clock is
  -- read once for each.
  unfoldable pub open_addresses :
      Snapshot → Text → ℕ → (ℕ → Time) → ℕ → End → List SocketAddr → List SocketAddr × End
  unfolding connection_until later
  open_addresses s host port clock k until [] = ([], until)
  open_addresses s host port clock k until (a ∷ rest) =
      let end =
        connection_until contains_ip resolve same_ip same_host parse_address s host a.ip port
          (clock k) in
      let (more, last) = open_addresses s host port clock (suc k) (later_open until end) rest in
      (add_open a end more, last)

  abbrev pub of_allowed : Snapshot → Text → ℕ → (ℕ → Time) → List SocketAddr → Reached
  of_allowed s host port clock [] = refuse_for (text "not allowed")
  of_allowed s host port clock (a ∷ rest) =
      of_open host port (open_addresses s host port clock 0 none (a ∷ rest))

  unfoldable pub resolve_target :
      List Network → Snapshot → (Text → Lookup) → (ℕ → Time) → Text → Reached
  unfolding host_and_port open_addresses
  resolve_target allow s lookup clock target = elim (host_and_port target) [
    | none ↦ refuse_for (text "not host:port: " ++ target)
    | some (host, port) ↦ elim (lookup target) [
      | not_found reason ↦ refuse_for reason
      | found addresses ↦ of_allowed s host port clock (filter (is_allowed allow) addresses)
    ]
  ]

  unfoldable pub check :
      (Time → Option Text)
      → List Network
      → Snapshot
      → (Text → Lookup)
      → (ℕ → Time)
      → Uuid
      → Text
      → Checked
  unfolding resolve_target
  check format allow s lookup clock id target =
      checked_of format id (resolve_target allow s lookup clock target)
