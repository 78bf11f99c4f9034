-- ===== src/Server/Approvals/Decisions.antt =====
-- `decide`, which `approve` and `deny` call, and `cancel` of crates/server/src/api/requests.rs.
use remotehub.Base.{
  ℕ, ◌+◌, ◌*◌, Bool, not, Option, none, some, List, [], ◌∷◌, ◌++◌, if◌then◌else◌, ◌=?◌, find,
}
use remotehub.Base.Int.{pos}
use remotehub.Base.Result.{Result}
use remotehub.Catalog.Defs.{Role, Uuid, ObjectId, Grant}
use remotehub.Catalog.Roles.{effective_role, may_approve}
use remotehub.Server.Approvals.{
  Status, Request, Tables, Asker, Problem, Outcome, is_pending, catalog_at, target_of,
}

pub data Decision : Type 0 where
  approve : Decision
  deny : Decision

abbrev pub has_id : Uuid → Request → Bool
has_id id r = r.id =? id

abbrev pub status_of : Decision → Status
status_of Decision.approve = Status.approved
status_of Decision.deny = Status.denied

abbrev pub expiry_of : Decision → ℕ → Request → Option ℕ
expiry_of Decision.approve now r = some (now + r.minutes * 60)
expiry_of Decision.deny now r = none

abbrev pub decided : Decision → Uuid → ℕ → Request → Request
decided decision by now r = record r {
  status = status_of decision;
  decided_by = some by;
  expires_at = expiry_of decision now r;
}

-- The `UPDATE` of the row of an id.
abbrev pub update_id : Uuid → (Request → Request) → List Request → List Request
update_id id f [] = []
update_id id f (r ∷ rs) = (if has_id id r then f r else r) ∷ update_id id f rs

-- The grant of an approved request, which runs out when the request does.
abbrev pub grant_of : ObjectId → ℕ → Request → Grant
grant_of target now r = record {
  object = target;
  principal = r.requester_sid;
  role = r.role;
  until = some (pos (now + r.minutes * 60));
}

abbrev pub with_grant : Decision → ObjectId → ℕ → Request → List Grant → List Grant
with_grant Decision.approve target now r grants = grants ++ grant_of target now r ∷ []
with_grant Decision.deny target now r grants = grants

abbrev pub may_not : Option Role → Problem
may_not none = Problem.not_found
may_not (some role) = Problem.forbidden

abbrev pub decide_on : Tables → Asker → ℕ → Decision → Request → Option ObjectId → Outcome
decide_on t asker now decision r none = (t, Result.err Problem.not_found)
decide_on t asker now decision r (some target) =
    if not (may_approve (catalog_at t now) asker.subject target)
    then (t, Result.err (may_not (effective_role (catalog_at t now) asker.subject target)))
    else if r.requester_id =? asker.user_id
    then (t, Result.err Problem.own_request)
    else if not (is_pending r.status)
    then (t, Result.err Problem.request_decided)
    else (
      record t {
        grants = with_grant decision target now r t.grants;
        requests = update_id r.id (decided decision asker.user_id now) t.requests;
      },
      Result.ok r.id,
    )

abbrev pub decide_found : Tables → Asker → ℕ → Decision → Option Request → Outcome
decide_found t asker now decision none = (t, Result.err Problem.not_found)
decide_found t asker now decision (some r) = decide_on t asker now decision r (target_of r)

unfoldable pub decide : Tables → Asker → ℕ → Uuid → Decision → Outcome
decide t asker now id decision = decide_found t asker now decision (find (has_id id) t.requests)

abbrev pub as_cancelled : Request → Request
as_cancelled r = record r { status = Status.cancelled }

abbrev pub cancel_on : Tables → Request → Option ObjectId → Outcome
cancel_on t r none = (t, Result.err Problem.not_found)
cancel_on t r (some target) =
    (record t { requests = update_id r.id as_cancelled t.requests }, Result.ok r.id)

abbrev pub cancel_found : Tables → Asker → Option Request → Outcome
cancel_found t asker none = (t, Result.err Problem.not_found)
cancel_found t asker (some r) =
    if not (r.requester_id =? asker.user_id)
    then (t, Result.err Problem.not_found)
    else if not (is_pending r.status)
    then (t, Result.err Problem.request_decided)
    else cancel_on t r (target_of r)

unfoldable pub cancel : Tables → Asker → Uuid → Outcome
cancel t asker id = cancel_found t asker (find (has_id id) t.requests)
