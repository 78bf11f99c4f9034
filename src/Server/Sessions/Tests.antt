-- ===== src/Server/Sessions/Tests.antt =====
-- A session of the pages that was last used at 1000, with ten minutes of idle time, and its neighbour.
use remotehub.Base.{
  ◌+◌, Bool, true, false, Option, none, some, List, [], ◌∷◌, arith, ◌≡◌, refl, length,
}
use remotehub.Base.Result.{Result}
use remotehub.Base.Text.{Text, text, trim, split_by, split_once}
use remotehub.Server.Sessions.{
  Row, Session, web, extension, seen_at, session_of, is_valid, by_hash, touch, find_session, purge,
}
use remotehub.Server.Sessions.Cookies.{token, cookie, all_pairs}
use remotehub.Server.Sessions.Active.{Activity, input}
use remotehub.Server.Sessions.Requests.{Problem, any_session, page_session, confirm}
use remotehub.Server.Sessions.Locked.{IsLocked, IsRefused, Step, Steps, locked_until_confirmed}
use remotehub.Server.Sessions.Purged.{by_hash-purge}
use remotehub.Server.Sessions.Confirmed.{wrong_times, wrong_times-ends, confirm-unlocks}

abbrev mine : Row
mine = record {
  token_hash = text "abc";
  user_id = 7;
  client = web;
  groups = [];
  blocked = false;
  expires_at = 9000;
  last_seen_at = 1000;
  confirmed_at = none;
  confirm_failures = 2;
}

abbrev other : Row
other = record mine { token_hash = text "xyz"; client = extension }

abbrev db : List Row
db = mine ∷ other ∷ []

abbrev headers : List (Option Text)
headers =
    none ∷ some (text "theme=dark") ∷ some (text "a=b; __Host-remotehub-session=abc; c=d") ∷ []

headers_test : token headers ≡ some (text "abc")
unfolding cookie all_pairs split_by split_once trim
headers_test = refl

abbrev same_hash : Text → Text
same_hash t = t

abbrev mine_at : Bool → Session
mine_at locked = record {
  token_hash = text "abc";
  client = web;
  user_id = 7;
  groups = [];
  locked = locked;
  confirmed = false;
}

page_session_tests :
    (page_session same_hash db headers false 600 1599
      ≡ (seen_at 1599 mine ∷ other ∷ [], Result.ok (mine_at false)))
    × (page_session same_hash db headers true 600 1599 ≡ (db, Result.ok (mine_at false)))
    × (page_session same_hash db headers false 600 1600 ≡ (db, Result.err Problem.session_locked))
    × (page_session same_hash db headers false 600 9000 ≡ (db, Result.err Problem.unauthenticated))
unfolding page_session any_session find_session by_hash session_of is_valid touch cookie all_pairs
    split_by split_once trim
page_session_tests = (refl, refl, refl, refl)

mine-IsLocked : IsLocked (text "abc") 600 1600 db
mine-IsLocked = refl

abbrev closed : Activity
closed = record { checked = none; is_open = false }

abbrev steps :
    Steps
      (text "abc")
      600
      1600
      db
      1700
      (purge
        (confirm (find_session db (text "abc") 600 1600 true).0 (text "abc") false 1600).0
        600
        1700).0
steps = Steps.then_step (Step.requests (text "abc") true) (
    Steps.then_step (Step.fails (text "abc"))
      (Steps.then_step (Step.passes (omega arith)) (Steps.then_step Step.purges Steps.done)))

abbrev db_later : List Row
db_later =
    (purge (confirm (find_session db (text "abc") 600 1600 true).0 (text "abc") false 1600).0 600
      1700).0

locked_until_confirmed_example :
    IsRefused (page_session same_hash db_later headers false 600 1700).1
    × ((input db_later closed (text "abc") 600 5 1700 true).1.is_open ≡ false)
locked_until_confirmed_example =
    locked_until_confirmed same_hash (text "abc") headers false 600 1600 1700 5 db db_later closed
      headers_test mine-IsLocked steps refl

by_hash-purge_example :
    (by_hash (purge db 600 1600).0 (text "abc") 600 1700 ≡ by_hash db (text "abc") 600 1700)
    × ((purge db 600 1600).1 + length (purge db 600 1600).0 ≡ 2)
by_hash-purge_example = by_hash-purge db (text "abc") 600 1600 1700 (omega arith)

wrong_times-ends_example : by_hash (wrong_times 5 db (text "abc") 1600) (text "abc") 600 1700 ≡ none
wrong_times-ends_example = wrong_times-ends db (text "abc") 600 1600 1700

mine_found : by_hash db (text "abc") 600 1600 ≡ some (mine_at true)
unfolding by_hash session_of is_valid
mine_found = refl

confirm-unlocks_example :
    by_hash (confirm db (text "abc") true 1600).0 (text "abc") 600 1600
    ≡ some (record (mine_at false) { confirmed = true })
confirm-unlocks_example =
    confirm-unlocks db (text "abc") 600 1600 (mine_at true) (omega arith) refl mine_found
