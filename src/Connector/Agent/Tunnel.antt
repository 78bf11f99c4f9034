-- ===== src/Connector/Agent/Tunnel.antt =====
-- The connections that the connector carries (crates/connector/src/agent.rs): `Connections`, the start
-- and the end of `stream`, the rounds of `while_open`, the waits of `connected`, and `carry`.
use remotehub.Base.{
  ℕ, suc, ◌-◌, ◌/◌, Bool, true, false, not, Option, List, [], ◌∷◌, ◌++◌, if◌then◌else◌, ltb, ◌=?◌,
  nat_eq,
}
use remotehub.Base.Map.{HashMap, insert, remove}
use remotehub.Base.Sort.{sort_by_key}
use remotehub.Base.Text.{Text}
use remotehub.Connector.Inventory.Defs.{IpAddr, Network, Address}
use remotehub.Connector.Access.Defs.{Time, Uuid, Snapshot}
use remotehub.Connector.Access.Queries.{permitted, any_open, next_end}
use remotehub.Connector.Access.Store.{
  Event, connection_started, connection_ended, connection_refused,
}
use remotehub.Connector.Agent.Reach.{Refusal}

-- Where a connection went.
pub record ReachedAt : Type 0 where
  pub host : Text
  pub ip : IpAddr
  pub port : ℕ

-- `ended` is the connection's own token, as far as it is cancelled.
pub record Running : Type 0 where
  pub target : Text
  pub user : Option Text
  pub device : Option Text
  pub since : Time
  pub sent : ℕ
  pub received : ℕ
  pub reached : ReachedAt
  pub ended : Bool

pub record Request : Type 0 where
  pub id : Uuid
  pub target : Text
  pub user : Option Text
  pub device : Option Text

abbrev pub Connections : Type 0
Connections = HashMap Uuid Running

abbrev pub running_of : Connections → List Running
running_of [] = []
running_of ((id, r) ∷ rest) = r ∷ running_of rest

-- `Connections::list`, the oldest first.
unfoldable pub list : Connections → List Running
list connections = sort_by_key ltb (λ r. r.since) (running_of connections)

-- What `stream` shares with the rest: the connections, and the journal with what it can write.
pub record Carried : Type 0 where
  pub connections : Connections
  pub journal : List Event

abbrev pub running_for : Request → ReachedAt → Time → Running
running_for request reached now = record {
  target = request.target;
  user = request.user;
  device = request.device;
  since = now;
  sent = 0;
  received = 0;
  reached = reached;
  ended = false;
}

-- `stream`, where the target is reached and the stream to remotehub is open.
unfoldable pub start_stream : Request → ReachedAt → Time → Carried → Carried
start_stream request reached now c = record {
  connections = insert c.connections request.id (running_for request reached now);
  journal =
      c.journal ++ connection_started request.id request.target request.device request.user ∷ [];
}

-- `stream`, after the connection, with what was counted in it and the time.
unfoldable pub end_stream : Request → Running → Time → Carried → Carried
end_stream request running now c = record {
  connections = remove c.connections request.id;
  journal =
      c.journal
      ++ connection_ended request.id request.target request.device request.user
          ((if ltb now running.since then running.since - now else now - running.since)
            / 1_000_000_000)
          running.sent running.received
        ∷ [];
}

-- `stream`, where the target is out of reach: the report to remotehub is `Report::Failed`.
pub record Failed : Type 0 where
  pub id : Uuid
  pub reason : Text
  pub not_open : Bool

unfoldable pub refuse_stream : Request → Refusal → Carried → Failed × Carried
refuse_stream request refusal c = (
  record { id = request.id; reason = refusal.reason; not_open = refusal.not_open },
  record c {
    journal =
        c.journal
        ++ connection_refused request.target request.device request.user refusal.reason ∷ [];
  },
)

module _ (contains_ip : Network → IpAddr → Bool) (resolve : Text → List IpAddr)
    (same_ip : IpAddr → IpAddr → Bool) (same_host : Text → Text → Bool)
    (parse_address : Text → Option Address) where
  abbrev pub passes : Snapshot → ReachedAt → Time → Bool
  passes s r now =
      permitted contains_ip resolve same_ip same_host parse_address s r.host r.ip r.port now

  -- The loop over the connections: what is no longer let through is ended. The clock is read for each.
  unfoldable pub end_closed : Snapshot → (Uuid → Time) → Connections → Connections
  end_closed s clock [] = []
  end_closed s clock ((id, r) ∷ rest) =
      (id, if passes s r.reached (clock id) then r else record r { ended = true })
      ∷ end_closed s clock rest

  -- A round of `while_open`: it is over, or the connections after it, and until when it sleeps.
  pub data Round : Type 0 where
    all_closed : Round
    sleeps : Connections → Option Time → Round

  unfoldable pub while_open_round : Snapshot → Time → (Uuid → Time) → Connections → Round
  unfolding any_open end_closed next_end
  while_open_round s now clock connections =
      if not (any_open s now)
      then all_closed
      else sleeps (end_closed s clock connections) (next_end s now)

-- `BACKOFF`
abbrev pub backoff : ℕ → ℕ
backoff attempt =
    if attempt =? 0
    then 1
    else if attempt =? 1
    then 2
    else if attempt =? 2
    then 5
    else if attempt =? 3
    then 10
    else 30

-- The loop of `connected`, over how the control connections ended: closed by remotehub, or not made.
-- What it waits after each.
unfoldable pub waits : ℕ → List Bool → List ℕ
waits attempt [] = []
waits attempt (closed ∷ rest) =
    let tried : ℕ = if closed then 0 else attempt in backoff tried ∷ waits (suc tried) rest
