-- ===== src/Server/Connectors/Steps.antt =====
-- What happens to `Connectors` of crates/server/src/connectors.rs, one operation after the other. Each
-- map is changed under a lock of its own; the waits for answers stand between the operations.
use remotehub.Base.{
  suc, Bool, Option, none, some, List, [], ◌∷◌, if◌then◌else◌, ◌=?◌, contains, nat_eq,
}
use remotehub.Base.Map.{HashMap, insert}
use remotehub.Base.Text.{Text}
use remotehub.Connector.Access.Defs.{Time, Uuid}
use remotehub.Connector.Agent.Report.{AccessState}
use remotehub.Server.Connectors.Defs.{
  Channel, WebSocket, Streamed, Requester, TargetChecked, Connectors, no_connectors, Registration,
  register, drop_registration, count, drop_carrying, report,
}
use remotehub.Server.Connectors.Asks.{
  ask_stream, Waited, end_stream_wait, claim, fail, ask_check, end_check_wait, checked,
}

pub data Step : Type 0 where
  registers : Uuid → Step
  unregisters : Registration → Step
  counts : Uuid → Step
  uncounts : Uuid → Step
  reports : Uuid → AccessState → Time → Step
  asks_stream : (connector : Uuid) → (target : Text) → Option Requester → (id : Uuid) → Step
  stream_waited : (id : Uuid) → Waited Streamed → Step
  brings_stream : (connector id : Uuid) → WebSocket → Step
  reports_failed : (connector id : Uuid) → (reason : Text) → (closed : Bool) → Step
  asks_check : (connector : Uuid) → (target : Text) → (id : Uuid) → Step
  check_waited : (id : Uuid) → Waited TargetChecked → Step
  reports_checked : (connector id : Uuid) → TargetChecked → Step

-- An answer on a channel, and the connector that it came from.
pub record Sent : Type 0 where
  pub channel : Channel
  pub by : Uuid

-- The connectors, with what has happened: the number of the next channel, the `Carrying` that are held,
-- the answers, and the connector that was asked for an answer on a channel.
pub record World : Type 0 where
  pub connectors : Connectors
  pub next : Channel
  pub counted : List Uuid
  pub sent : List Sent
  pub asked : HashMap Channel Uuid

abbrev pub start : World
start = record { connectors = no_connectors; next = 0; counted = []; sent = []; asked = [] }

abbrev pub without_one : Uuid → List Uuid → List Uuid
without_one c [] = []
without_one c (d ∷ ds) = let rest = without_one c ds in if d =? c then ds else d ∷ rest

abbrev pub answers : Uuid → Option Channel → List Sent → List Sent
answers connector none sent = sent
answers connector (some channel) sent = record { channel = channel; by = connector } ∷ sent

abbrev pub channel_of {ℓ} : {A : Type ℓ} → Option (Channel × A) → Option Channel
channel_of none = none
channel_of (some (channel, a)) = some channel

-- An ask takes a channel, whether it is sent or not.
abbrev pub ask : World → Uuid → Connectors → World
ask w connector after = record w {
  connectors = after;
  next = suc w.next;
  asked = insert w.asked w.next connector;
}

unfoldable pub step : World → Step → World
unfolding register drop_registration count drop_carrying report ask_stream end_stream_wait claim
    fail ask_check end_check_wait checked
step w (registers c) = record w {
  connectors = (register w.connectors c w.next).1;
  next = suc w.next;
}
step w (unregisters r) = record w { connectors = drop_registration r w.connectors }
step w (counts c) = record w { connectors = count w.connectors c; counted = c ∷ w.counted }
step w (uncounts c) =
    if contains w.counted c
    then record w { connectors = drop_carrying c w.connectors; counted = without_one c w.counted }
    else w
step w (reports c state now) = record w { connectors = (report w.connectors c state now).1 }
step w (asks_stream c target whom id) = ask w c (ask_stream w.connectors c target whom id w.next).1
step w (stream_waited id waited) = record w {
  connectors = (end_stream_wait w.connectors id waited).1;
}
step w (brings_stream c id socket) =
    let (reply, after) = claim w.connectors c id in
    record w { connectors = after; sent = answers c reply w.sent }
step w (reports_failed c id reason closed) =
    let (sent, after) = fail w.connectors c id reason closed in
    record w { connectors = after; sent = answers c (channel_of sent) w.sent }
step w (asks_check c target id) = ask w c (ask_check w.connectors c target id w.next).1
step w (check_waited id waited) = record w {
  connectors = (end_check_wait w.connectors id waited).1;
}
step w (reports_checked c id answer) =
    let (sent, after) = checked w.connectors c id answer in
    record w { connectors = after; sent = answers c (channel_of sent) w.sent }

unfoldable pub run : World → List Step → World
unfolding step
run w [] = w
run w (s ∷ ss) = run (step w s) ss
