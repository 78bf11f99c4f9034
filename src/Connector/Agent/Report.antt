-- ===== src/Connector/Agent/Report.antt =====
-- `state`, `refusal`, `post_state` and a round of `report` of crates/connector/src/agent.rs: what the
-- connector tells remotehub, and what it takes of the answer. How a point in time, an address, an id
-- and a status are written, and what the post gives, are parameters.
use remotehub.Base.{
  ℕ, suc, ◌+◌, Bool, ◌&&◌, not, Option, none, some, List, [], ◌∷◌, ◌++◌, map, if◌then◌else◌, ltb,
  ◌=?◌, length, ◌⊎◌, inl, inr,
}
use remotehub.Base.Text.{Text, text}
use remotehub.Base.Decimal.{show}
use remotehub.Connector.Inventory.Defs.{Address, Ports, Device}
use remotehub.Connector.Inventory.Written.{ports_text}
use remotehub.Connector.Access.Defs.{
  Time, Uuid, RequestTarget, CustomerRequest, Grant, Snapshot, closes_at, network_open,
  network_until, device_until, open_devices, open_requests,
}
use remotehub.Connector.Access.Queries.{open_groups, any_open}
use remotehub.Connector.Access.Store.{Dir, Io}
use remotehub.Connector.Access.Changes.{received}
use remotehub.Connector.Requests.Defs.{
  Answer, RequestsError, State, list_requests, parse, take, max_pending_bytes,
}

-- crates/connector/src/protocol.rs
abbrev pub max_listed : ℕ
max_listed = 1000

abbrev pub version : ℕ
version = 1

pub record OpenGroup : Type 0 where
  pub name : Text
  pub until : Option Text

pub record OpenDevice : Type 0 where
  pub name : Text
  pub address : Text
  pub ports : Text
  pub until : Option Text

-- `protocol::State`
pub record AccessState : Type 0 where
  pub opened : Bool
  pub until : Option Text
  pub partly : Bool
  pub groups : List OpenGroup
  pub devices : List OpenDevice
  pub answers : List Answer

abbrev pub and_then : {A B : Type 0} → Option A → (A → Option B) → Option B
and_then none f = none
and_then (some a) f = f a

abbrev pub flatten_end : Option (Option Time) → Option Time
flatten_end none = none
flatten_end (some end) = end

module _ (format : Time → Option Text) (show_address : Address → Text) where
  abbrev pub open_group_of : Text × Option Time → OpenGroup
  open_group_of (name, until) = record { name = name; until = and_then until format }

  abbrev pub approved_target : Option Time → RequestTarget → OpenDevice
  approved_target end t = record {
    name = t.name;
    address = t.host;
    ports = show t.port;
    until = and_then end format;
  }

  -- The targets of the approved requests.
  unfoldable pub approved : List (Uuid × Grant) → List OpenDevice
  approved [] = []
  approved ((id, g) ∷ rest) =
      map (approved_target (closes_at g.stored.access)) g.targets ++ approved rest

  abbrev pub open_device_of : Snapshot → Time → Device → OpenDevice
  open_device_of s now d = record {
    name = d.name;
    address = show_address d.address;
    ports = ports_text d.ports;
    until = and_then (flatten_end (device_until s d now)) format;
  }

  unfoldable pub state : Snapshot → Time → AccessState
  unfolding network_open network_until any_open open_groups open_devices open_requests approved
  state s now = record {
    opened = network_open s now;
    until = and_then (flatten_end (network_until s now)) format;
    partly = not (network_open s now) && any_open s now;
    groups = take max_listed (map open_group_of (open_groups s now));
    devices =
        take max_listed
          (map (open_device_of s now) (open_devices s now) ++ approved (open_requests s now));
    answers = [];
  }

-- Why remotehub refused a request.
unfoldable pub refusal : (ℕ → Text) → ℕ → Option Text → Text
refusal show_status status theirs =
    if status =? 426
    then text "remotehub speaks connector protocol version "
      ++ (elim theirs [ none ↦ text "unknown" | some v ↦ v ]
          ++ (text ", this connector "
              ++ (show version ++ text ": run the connector of remotehub's release")))
    else if status =? 401
    then text "remotehub does not know the token"
    else text "remotehub answered " ++ show_status status

-- What a post gives: no answer, and why; or a status with the version it names, and the body.
pub data Response : Type 0 where
  unreachable : Text → Response
  response : (status : ℕ) → (theirs : Option Text) → (body : List ℕ) → Response

pub data PostError : Type 0 where
  not_posted : Text → PostError
  longer : PostError
  dropped : RequestsError → PostError

abbrev pub is_success : ℕ → Bool
is_success status = ltb 199 status && ltb status 300

abbrev pub of_parsed : RequestsError ⊎ List CustomerRequest → PostError ⊎ List CustomerRequest
of_parsed (inl e) = inl (dropped e)
of_parsed (inr requests) = inr requests

module _ (show_status : ℕ → Text) (is_ip : Text → Bool)
    (from_slice : List ℕ → Text ⊎ List CustomerRequest) where
  -- The end of `post_state`: the body is read up to one byte more than an answer may have.
  unfoldable pub taken_of : Response → PostError ⊎ List CustomerRequest
  unfolding refusal parse
  taken_of (unreachable reason) = inl (not_posted reason)
  taken_of (response status theirs body) =
      if not (is_success status)
      then inl (not_posted (refusal show_status status theirs))
      else if ltb (max_pending_bytes + 1) (length body)
      then inl longer
      else of_parsed (parse is_ip from_slice body)

  module _ (show_uuid : Uuid → Text) (show_address : Address → Text)
      (show_ports : List Ports → Text) (lower : Text → Text) where
    -- The loop over the requests that are listed for the first time: each is recorded.
    unfoldable pub record_all : (ℕ → Io) → ℕ → List CustomerRequest → Dir → Dir
    unfolding received
    record_all io k [] d = d
    record_all io k (r ∷ rest) d =
        record_all io (suc k) rest (received show_uuid show_address show_ports lower (io k) r d).1

    -- What a round of `report` does with the answer: a request list that is not taken changes nothing.
    unfoldable pub report_round : (ℕ → Io) → Response → State × Dir → State × Dir
    unfolding taken_of record_all list_requests
    report_round io answer (s, d) = elim (taken_of answer) [
      | inl e ↦ (s, d)
      | inr requests ↦ let (new, after) = list_requests s requests in (after, record_all io 0 new d)
    ]
