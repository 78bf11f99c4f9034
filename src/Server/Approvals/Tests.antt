-- ===== src/Server/Approvals/Tests.antt =====
-- Bob asks for half an hour on a device at 60, and ann, who manages its folder, approves at 100.
use remotehub.Base.{ℕ, String, true, false, none, some, [], ◌∷◌, ◌++◌, ◌⊎◌, ◌↔◌, ◌≡◌, refl}
use remotehub.Base.Int.{pos, negsuc}
use remotehub.Base.Map.{get, insert}
use remotehub.Base.Result.{Result}
use remotehub.Base.Text.{text, trim}
use remotehub.Catalog.Defs.{
  Role, ObjectId, Objects, new, group_grants, add_grant, container, contains_object, as_str,
  parse_role, path, climb,
}
use remotehub.Catalog.Roles.{effective_role, highest, authorize, may_request, may_approve}
use remotehub.Server.Approvals.{Status, Request, Tables, Asker, Problem, catalog_at, create_request}
use remotehub.Server.Approvals.Decisions.{Decision, decide, cancel}
use remotehub.Server.Approvals.Given.{Gives, authorize-decide_iff}
use remotehub.Server.Approvals.FourEyes.{Step, Steps, IsFair, Steps-IsFair}

abbrev site : Objects
site = record {
  folders = (1, none) ∷ [];
  collections = [];
  devices = (3, 1) ∷ [];
  credentials = [];
  profiles = [];
}

abbrev start : Tables
start = record {
  objects = site;
  grants =
      record { object = ObjectId.folder 1; principal = "ann"; role = Role.manage; until = none }
      ∷ record { object = ObjectId.folder 1; principal = "bob"; role = Role.list; until = none }
      ∷ [];
  requests = [];
}

abbrev user : ℕ → String → Asker
user n sid = record {
  user_id = n;
  principal = some sid;
  subject = record { sids = sid ∷ []; admin = false };
}

abbrev bob : Asker
bob = user 2 "bob"

abbrev ann : Asker
ann = user 1 "ann"

abbrev request : Request
request = record {
  id = 9;
  folder_id = none;
  device_id = some 3;
  credential_id = none;
  requester_id = 2;
  requester_sid = "bob";
  role = Role.connect;
  minutes = 30;
  reason = text "update";
  status = Status.pending;
  decided_by = none;
  expires_at = none;
}

abbrev asked : Tables
asked = record start { requests = request ∷ [] }

abbrev db_approved : Tables
db_approved = record start {
  grants =
      start.grants
      ++ record {
        object = ObjectId.device 3;
        principal = "bob";
        role = Role.connect;
        until = some (pos 1900);
      }
        ∷ [];
  requests =
      record request { status = Status.approved; decided_by = some 1; expires_at = some 1900 } ∷ [];
}

create_tests :
    (create_request start 9 bob 60 (ObjectId.device 3) "connect" (pos 30) (text " update ")
      ≡ (asked, Result.ok 9))
    × (create_request asked 10 bob 60 (ObjectId.device 3) "connect" (pos 60) (text "again")
        ≡ (asked, Result.err Problem.request_pending))
    × (create_request start 9 bob 60 (ObjectId.device 3) "edit" (pos 30) (text "x")
        ≡ (start, Result.err (Problem.invalid_request (text "role"))))
    × (create_request start 9 bob 60 (ObjectId.device 3) "connect" (negsuc 1) (text "x")
        ≡ (start, Result.err (Problem.invalid_request (text "minutes"))))
    × (create_request start 9 bob 60 (ObjectId.device 4) "connect" (pos 30) (text "x")
        ≡ (start, Result.err Problem.not_found))
unfolding create_request trim new group_grants add_grant get insert container contains_object path
    climb effective_role highest authorize may_request as_str parse_role
create_tests = (refl, refl, refl, refl, refl)

decide_tests :
    (decide asked ann 100 9 Decision.approve ≡ (db_approved, Result.ok 9))
    × (decide asked bob 100 9 Decision.approve ≡ (asked, Result.err Problem.forbidden))
    × (decide asked (user 2 "ann") 100 9 Decision.approve ≡ (asked, Result.err Problem.own_request))
    × (decide db_approved ann 100 9 Decision.deny
        ≡ (db_approved, Result.err Problem.request_decided))
    × (cancel db_approved bob 9 ≡ (db_approved, Result.err Problem.request_decided))
    × (cancel asked ann 9 ≡ (asked, Result.err Problem.not_found))
unfolding decide cancel new group_grants add_grant get insert container contains_object path climb
    effective_role highest authorize may_approve
decide_tests = (refl, refl, refl, refl, refl, refl)

authorize-decide_iff_example :
    (authorize (catalog_at db_approved 1899) bob.subject Role.connect (ObjectId.device 3) ≡ true)
    ↔ ((authorize (catalog_at asked 1899) bob.subject Role.connect (ObjectId.device 3) ≡ true)
        ⊎ Gives asked 100 1899 request
            (ObjectId.device 3)
            bob.subject
            Role.connect
            (ObjectId.device 3))
authorize-decide_iff_example =
    authorize-decide_iff asked db_approved ann 100 1899 9 9 request (ObjectId.device 3) bob.subject
      Role.connect (ObjectId.device 3) decide_tests.0 refl refl

given_tests :
    (authorize (catalog_at db_approved 1899) bob.subject Role.connect (ObjectId.device 3) ≡ true)
    × (authorize (catalog_at db_approved 1900) bob.subject Role.connect (ObjectId.device 3) ≡ false)
    × (authorize (catalog_at asked 1899) bob.subject Role.connect (ObjectId.device 3) ≡ false)
unfolding new group_grants add_grant get insert container contains_object path climb effective_role
    highest authorize
given_tests = (refl, refl, refl)

start-IsFair : IsFair start
start-IsFair = (refl, refl)

Steps-IsFair_example :
    IsFair
      (decide
        (create_request start 9 bob 60 (ObjectId.device 3) "connect" (pos 30) (text " update ")).0
        ann
        100
        9
        Decision.approve).0
Steps-IsFair_example =
    Steps-IsFair
      (Steps.then_step
        (Step.asks 9 bob 60 (ObjectId.device 3) "connect" (pos 30) (text " update ") refl)
        (Steps.then_step (Step.decides ann 100 9 Decision.approve) Steps.done))
      start-IsFair
