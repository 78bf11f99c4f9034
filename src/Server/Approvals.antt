-- ===== src/Server/Approvals.antt =====
-- crates/server/src/api/requests.rs: access for a while, asked for by one user and decided by another.
-- The tables are a record; a role and a status stand for their names in the table, times are seconds.
-- The catalog is loaded from the tables at the time of each request (`context`). The audit log and the
-- names that are only shown are no part of the model.
pub mod Decisions
pub mod Rows
pub mod FourEyes
pub mod Granted
pub mod Given
mod Tests
use remotehub.Base.{
  ℕ, ◌+◌, ◌*◌, String, Bool, true, false, ◌&&◌, ◌||◌, not, Option, none, some, List, [], ◌∷◌, ◌++◌,
  if◌then◌else◌, leb, ltb, ◌=?◌, ◌==◌, any, find, is_empty, length, nat_eq,
}
use remotehub.Base.Int.{ℤ, pos, negsuc}
use remotehub.Base.Result.{Result}
use remotehub.Base.Text.{Text, text, text_eq, trim, within}
use remotehub.Catalog.Defs.{
  Role, Uuid, ObjectId, folder, device, credential, collection, profile, Subject, Grant, Objects,
  Catalog, rank, new, parse_role,
}
use remotehub.Catalog.Roles.{effective_role, may_request, may_approve}

pub data Status : Type 0 where
  pending : Status
  approved : Status
  denied : Status
  cancelled : Status

abbrev pub is_pending : Status → Bool
is_pending Status.pending = true
is_pending _ = false

-- A row of `access_requests`.
pub record Request : Type 0 where
  pub id : Uuid
  pub folder_id : Option Uuid
  pub device_id : Option Uuid
  pub credential_id : Option Uuid
  pub requester_id : Uuid
  pub requester_sid : String
  pub role : Role
  pub minutes : ℕ
  pub reason : Text
  pub status : Status
  pub decided_by : Option Uuid
  pub expires_at : Option ℕ

pub record Tables : Type 0 where
  pub objects : Objects
  pub grants : List Grant
  pub requests : List Request

-- Who asks: of `Session` what the handlers use.
pub record Asker : Type 0 where
  pub user_id : Uuid
  pub principal : Option String
  pub subject : Subject

pub data Problem : Type 0 where
  invalid_request : Text → Problem
  forbidden : Problem
  not_found : Problem
  request_pending : Problem
  own_request : Problem
  request_decided : Problem

abbrev pub catalog_at : Tables → ℕ → Catalog
catalog_at t now = new t.objects t.grants (pos now)

-- `catalog::object_id` and `columns`
abbrev pub object_id : Option Uuid → Option Uuid → Option Uuid → Option ObjectId
object_id (some id) none none = some (folder id)
object_id none (some id) none = some (device id)
object_id none none (some id) = some (credential id)
object_id _ _ _ = none

abbrev pub target_of : Request → Option ObjectId
target_of r = object_id r.folder_id r.device_id r.credential_id

abbrev pub columns : ObjectId → Option Uuid × Option Uuid × Option Uuid
columns (folder id) = (some id, none, none)
columns (device id) = (none, some id, none)
columns (credential id) = (none, none, some id)
columns (collection id) = (none, none, none)
columns (profile id) = (none, none, none)

-- `MINUTES`
abbrev pub minutes_of : ℤ → Option ℕ
minutes_of (pos n) = if within 15 1440 n then some n else none
minutes_of (negsuc n) = none

abbrev pub same_uuid : Option Uuid → Option Uuid → Bool
same_uuid none none = true
same_uuid (some a) (some b) = a =? b
same_uuid _ _ = false

abbrev pub is_waiting : Uuid → Role → Option Uuid × Option Uuid × Option Uuid → Request → Bool
is_waiting user role (f, d, c) r =
    (r.requester_id =? user)
    && (is_pending r.status
        && ((rank r.role =? rank role)
            && (same_uuid r.folder_id f
                && (same_uuid r.device_id d && same_uuid r.credential_id c))))

abbrev pub new_request :
    Uuid → Asker → String → Role → ℕ → Text → Option Uuid × Option Uuid × Option Uuid → Request
new_request id asker sid role minutes reason (f, d, c) = record {
  id = id;
  folder_id = f;
  device_id = d;
  credential_id = c;
  requester_id = asker.user_id;
  requester_sid = sid;
  role = role;
  minutes = minutes;
  reason = reason;
  status = Status.pending;
  decided_by = none;
  expires_at = none;
}

abbrev pub Outcome : Type 0
Outcome = Tables × Result Problem Uuid

-- The transaction: a request of the same kind that waits, and else the new row, of a fresh `id`.
abbrev pub insert_request :
    Tables
    → Uuid
    → Asker
    → String
    → Role
    → ℕ
    → Text
    → Option Uuid × Option Uuid × Option Uuid
    → Outcome
insert_request t id asker sid role minutes reason place =
    if any (is_waiting asker.user_id role place) t.requests
    then (t, Result.err Problem.request_pending)
    else (
      record t { requests = t.requests ++ new_request id asker sid role minutes reason place ∷ [] },
      Result.ok id,
    )

abbrev pub with_reason : Tables → Uuid → Asker → String → Role → ℕ → Text → ObjectId → Outcome
with_reason t id asker sid role minutes reason target =
    if is_empty reason || ltb 500 (length reason)
    then (t, Result.err (Problem.invalid_request (text "reason")))
    else insert_request t id asker sid role minutes reason (columns target)

abbrev pub with_minutes :
    Tables → Uuid → Asker → String → Role → Option ℕ → Text → ObjectId → Outcome
with_minutes t id asker sid role none reason target =
    (t, Result.err (Problem.invalid_request (text "minutes")))
with_minutes t id asker sid role (some n) reason target =
    with_reason t id asker sid role n (trim reason) target

abbrev pub with_known_role :
    Tables → Uuid → Asker → ℕ → String → ObjectId → Option Role → ℤ → Text → Outcome
with_known_role t id asker now sid target none minutes reason =
    (t, Result.err (Problem.invalid_request (text "role")))
with_known_role t id asker now sid target (some role) minutes reason =
    if not (may_request (catalog_at t now) asker.subject role target)
    then (t, Result.err (Problem.invalid_request (text "role")))
    else with_minutes t id asker sid role (minutes_of minutes) reason target

abbrev pub if_seen :
    Tables → Uuid → Asker → ℕ → String → ObjectId → String → ℤ → Text → Option Role → Outcome
if_seen t id asker now sid target role minutes reason none = (t, Result.err Problem.not_found)
if_seen t id asker now sid target role minutes reason (some held) =
    with_known_role t id asker now sid target (parse_role role) minutes reason

abbrev pub with_principal :
    Tables → Uuid → Asker → ℕ → ObjectId → String → ℤ → Text → Option String → Outcome
with_principal t id asker now target role minutes reason none = (t, Result.err Problem.forbidden)
with_principal t id asker now target role minutes reason (some sid) =
    if_seen t id asker now sid target role minutes reason
      (effective_role (catalog_at t now) asker.subject target)

abbrev pub is_collection : ObjectId → Bool
is_collection (collection id) = true
is_collection _ = false

unfoldable pub create_request : Tables → Uuid → Asker → ℕ → ObjectId → String → ℤ → Text → Outcome
create_request t id asker now target role minutes reason =
    if is_collection target
    then (t, Result.err (Problem.invalid_request (text "kind")))
    else with_principal t id asker now target role minutes reason asker.principal
