-- ===== src/Server/Connectors/Asks.antt =====
-- The streams and checks that are asked of a connector: `Connectors::stream`, `claim`, `fail`, `check`
-- and `checked` of crates/server/src/connectors.rs.
use remotehub.Base.{ℕ, Bool, Option, none, some, if◌then◌else◌, ◌=?◌, nat_eq}
use remotehub.Base.Map.{get, insert, remove}
use remotehub.Base.Text.{Text}
use remotehub.Connector.Access.Defs.{Uuid}
use remotehub.Server.Connectors.Defs.{
  Channel, ConnectorError, Connectors, Pending, Requester, Streamed, TargetChecked, no_stream,
  not_open, offline, refused, timeout,
}

-- What goes to a connector's control socket.
pub data Control : Type 0 where
  open_stream : (id : Uuid) → (target : Text) → (user device : Option Text) → Control
  check_target : (id : Uuid) → (target : Text) → Control

abbrev pub user_of : Option Requester → Option Text
user_of none = none
user_of (some w) = some w.user

abbrev pub device_of : Option Requester → Option Text
device_of none = none
device_of (some w) = some w.device

abbrev pub stream_to :
    Connectors
    → Uuid
    → Text
    → Option Requester
    → Uuid
    → Channel
    → Option (ℕ × Channel)
    → Option (Channel × Control) × Connectors
stream_to cs connector target whom id reply none = (none, cs)
stream_to cs connector target whom id reply (some (generation, sender)) = (
  some (sender, open_stream id target (user_of whom) (device_of whom)),
  record cs { pending = insert cs.pending id (record { connector = connector; reply = reply }) },
)

-- `stream`, up to the wait: none if the connector is offline, else the message and its channel. The id
-- is random.
unfoldable pub ask_stream :
    Connectors
    → Uuid
    → Text
    → Option Requester
    → Uuid
    → Channel
    → Option (Channel × Control) × Connectors
ask_stream cs connector target whom id reply =
    stream_to cs connector target whom id reply (get cs.online connector)

-- How the wait for an answer ended.
pub data Waited (A : Type 0) : Type 0 where
  not_sent : Waited A
  answered : A → Waited A
  reply_dropped : Waited A
  timed_out : Waited A

-- `stream`, after the wait.
unfoldable pub end_stream_wait : Connectors → Uuid → Waited Streamed → Streamed × Connectors
end_stream_wait cs id waited = (
  elim waited [
    | not_sent ↦ no_stream offline
    | answered result ↦ result
    | reply_dropped ↦ no_stream offline
    | timed_out ↦ no_stream timeout
  ],
  record cs { pending = remove cs.pending id },
)

abbrev pub claim_waiting : Connectors → Uuid → Uuid → Option Pending → Option Channel × Connectors
claim_waiting cs connector id none = (none, cs)
claim_waiting cs connector id (some waiting) =
    if waiting.connector =? connector
    then (some waiting.reply, record cs { pending = remove cs.pending id })
    else (none, cs)

unfoldable pub claim : Connectors → Uuid → Uuid → Option Channel × Connectors
claim cs connector id = claim_waiting cs connector id (get cs.pending id)

abbrev pub failure : Text → Bool → Streamed
failure reason closed = if closed then no_stream not_open else no_stream (refused reason)

abbrev pub sent_on {ℓ} : {A : Type ℓ} → A → Option Channel → Option (Channel × A)
sent_on answer none = none
sent_on answer (some reply) = some (reply, answer)

-- What is sent on the channel of the request, if the connector was asked for it.
unfoldable pub fail :
    Connectors → Uuid → Uuid → Text → Bool → Option (Channel × Streamed) × Connectors
unfolding claim
fail cs connector id reason closed =
    let (reply, after) = claim cs connector id in (sent_on (failure reason closed) reply, after)

abbrev pub check_to :
    Connectors
    → Uuid
    → Text
    → Uuid
    → Channel
    → Option (ℕ × Channel)
    → Option (Channel × Control) × Connectors
check_to cs connector target id reply none = (none, cs)
check_to cs connector target id reply (some (generation, sender)) = (
  some (sender, check_target id target),
  record cs { checks = insert cs.checks id (connector, reply) },
)

-- `check`, up to the wait.
unfoldable pub ask_check :
    Connectors → Uuid → Text → Uuid → Channel → Option (Channel × Control) × Connectors
ask_check cs connector target id reply =
    check_to cs connector target id reply (get cs.online connector)

pub data CheckResult : Type 0 where
  check_done : TargetChecked → CheckResult
  no_check : ConnectorError → CheckResult

-- `check`, after the wait.
unfoldable pub end_check_wait : Connectors → Uuid → Waited TargetChecked → CheckResult × Connectors
end_check_wait cs id waited = (
  elim waited [
    | not_sent ↦ no_check offline
    | answered result ↦ check_done result
    | reply_dropped ↦ no_check offline
    | timed_out ↦ no_check timeout
  ],
  record cs { checks = remove cs.checks id },
)

abbrev pub checked_by :
    Connectors
    → Uuid
    → Uuid
    → TargetChecked
    → Option (Uuid × Channel)
    → Option (Channel × TargetChecked) × Connectors
checked_by cs connector id answer none = (none, cs)
checked_by cs connector id answer (some (asked, reply)) =
    if asked =? connector
    then (some (reply, answer), record cs { checks = remove cs.checks id })
    else (none, cs)

unfoldable pub checked :
    Connectors → Uuid → Uuid → TargetChecked → Option (Channel × TargetChecked) × Connectors
checked cs connector id answer = checked_by cs connector id answer (get cs.checks id)
