-- ===== src/Server/Connectors/Defs.antt =====
-- `Connectors` of crates/server/src/connectors.rs. A channel is told by a number, of which each new one
-- takes the next; what is sent on one is a value that the operation gives back.
use remotehub.Base.{
  ℕ, ◌+◌, ◌-◌, Bool, false, Option, none, some, [], if◌then◌else◌, ltb, ◌=?◌, nat_eq,
}
use remotehub.Base.Map.{HashMap, get, insert, remove, contains_key}
use remotehub.Base.Text.{Text}
use remotehub.Connector.Access.Defs.{Time, Uuid}
use remotehub.Connector.Agent.Report.{AccessState}

abbrev pub Channel : Type 0
Channel = ℕ

abbrev pub WebSocket : Type 0
WebSocket = ℕ

pub data ConnectorError : Type 0 where
  offline : ConnectorError
  timeout : ConnectorError
  refused : Text → ConnectorError
  not_open : ConnectorError

pub data Streamed : Type 0 where
  stream : WebSocket → Streamed
  no_stream : ConnectorError → Streamed

pub record Requester : Type 0 where
  pub user : Text
  pub device : Text

-- The server's `Checked`.
pub record TargetChecked : Type 0 where
  pub opened : Bool
  pub until : Option Text

pub record Pending : Type 0 where
  pub connector : Uuid
  pub reply : Channel

pub record Connectors : Type 0 where
  pub online : HashMap Uuid (ℕ × Channel)
  pub pending : HashMap Uuid Pending
  pub generation : ℕ
  pub carrying : HashMap Uuid ℕ
  pub carried : HashMap Uuid ℕ
  pub access : HashMap Uuid (AccessState × Time)
  pub checks : HashMap Uuid (Uuid × Channel)

-- `Connectors::default()`
abbrev pub no_connectors : Connectors
no_connectors = record {
  online = [];
  pending = [];
  generation = 0;
  carrying = [];
  carried = [];
  access = [];
  checks = [];
}

-- `Registration`
pub record Registration : Type 0 where
  pub connector : Uuid
  pub generation : ℕ

abbrev pub max_u64 : ℕ
max_u64 = 18_446_744_073_709_551_615

-- One more and one less, of 64 bits.
unfoldable pub next_u64 : ℕ → ℕ
next_u64 n = if n =? max_u64 then 0 else n + 1

unfoldable pub previous_u64 : ℕ → ℕ
previous_u64 n = if n =? 0 then max_u64 else n - 1

abbrev pub or_default : Option ℕ → ℕ
or_default none = 0
or_default (some n) = n

unfoldable pub register : Connectors → Uuid → Channel → Registration × Connectors
register cs connector sender = (
  record { connector = connector; generation = cs.generation },
  record cs {
    online = insert cs.online connector (cs.generation, sender);
    generation = next_u64 cs.generation;
  },
)

abbrev pub is_generation : ℕ → Option (ℕ × Channel) → Bool
is_generation generation none = false
is_generation generation (some (g, sender)) = g =? generation

-- `Drop for Registration`
unfoldable pub drop_registration : Registration → Connectors → Connectors
drop_registration r cs =
    if is_generation r.generation (get cs.online r.connector)
    then record cs { online = remove cs.online r.connector }
    else cs

unfoldable pub is_online : Connectors → Uuid → Bool
is_online cs connector = contains_key cs.online connector

unfoldable pub streams : Connectors → Uuid → ℕ
streams cs connector = or_default (get cs.carrying connector)

unfoldable pub streams_carried : Connectors → Uuid → ℕ
streams_carried cs connector = or_default (get cs.carried connector)

-- `entry(connector).or_default() += 1`
abbrev pub one_more : HashMap Uuid ℕ → Uuid → HashMap Uuid ℕ
one_more m connector = insert m connector (next_u64 (or_default (get m connector)))

-- `count`: the `Carrying` that it gives back is the connector's id.
unfoldable pub count : Connectors → Uuid → Connectors
unfolding next_u64
count cs connector = record cs {
  carrying = one_more cs.carrying connector;
  carried = one_more cs.carried connector;
}

abbrev pub one_less : HashMap Uuid ℕ → Uuid → Option ℕ → HashMap Uuid ℕ
one_less m connector none = m
one_less m connector (some n) =
    if previous_u64 n =? 0 then remove m connector else insert m connector (previous_u64 n)

-- `Drop for Carrying`
unfoldable pub drop_carrying : Uuid → Connectors → Connectors
unfolding previous_u64
drop_carrying connector cs = record cs {
  carrying = one_less cs.carrying connector (get cs.carrying connector);
}

-- `REPORT_STALE`, 180 seconds.
abbrev pub report_stale : ℕ
report_stale = 180_000_000_000

abbrev pub if_recent : Time → Option (AccessState × Time) → Option AccessState
if_recent now none = none
if_recent now (some (state, at)) = if ltb (now - at) report_stale then some state else none

unfoldable pub report : Connectors → Uuid → AccessState → Time → Option AccessState × Connectors
report cs connector state now = (
  if_recent now (get cs.access connector),
  record cs { access = insert cs.access connector (state, now) },
)

unfoldable pub access : Connectors → Uuid → Time → Option AccessState
access cs connector now = if_recent now (get cs.access connector)
