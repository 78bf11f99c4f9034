-- ===== src/Server/Sessions/Requests.antt =====
-- Whose request runs: the extractors `AnySession` and `Session`, and `confirm` of
-- crates/server/src/api/confirm.rs from where the second factor was checked.
use remotehub.Base.{
  ℕ, suc, Bool, true, not, Option, none, some, List, if◌then◌else◌, leb, ◌==◌, find,
}
use remotehub.Base.Result.{Result}
use remotehub.Base.Text.{Text, text_eq}
use remotehub.Server.Sessions.{
  Row, Session, web, has_hash, find_session, update_where, delete_where,
}
use remotehub.Server.Sessions.Cookies.{token}

pub data Problem : Type 0 where
  unauthenticated : Problem
  session_locked : Problem
  confirmation_required : Problem
  second_factor_invalid : Problem
  internal : Problem

abbrev pub of_web : Option Session → Result Problem Session
of_web none = Result.err Problem.unauthenticated
of_web (some s) = if s.client == web then Result.ok s else Result.err Problem.unauthenticated

abbrev pub unlocked_only : Result Problem Session → Result Problem Session
unlocked_only (Result.err e) = Result.err e
unlocked_only (Result.ok s) = if s.locked then Result.err Problem.session_locked else Result.ok s

module _ (sha256 : Text → Text) where
  abbrev pub found_by : List Row → Option Text → Bool → ℕ → ℕ → List Row × Result Problem Session
  found_by db none background idle now = (db, Result.err Problem.unauthenticated)
  found_by db (some t) background idle now =
      let found = find_session db (sha256 t) idle now (not background) in (found.0, of_web found.1)

  -- `AnySession::from_request_parts`; `background` is whether the header of that name is there.
  unfoldable pub any_session :
      List Row → List (Option Text) → Bool → ℕ → ℕ → List Row × Result Problem Session
  any_session db headers background idle now = found_by db (token headers) background idle now

  -- `Session::from_request_parts`
  unfoldable pub page_session :
      List Row → List (Option Text) → Bool → ℕ → ℕ → List Row × Result Problem Session
  unfolding any_session
  page_session db headers background idle now =
      let answer = any_session db headers background idle now in (answer.0, unlocked_only answer.1)

-- `Session::require_confirmation`
unfoldable pub require_confirmation : Session → Result Problem Session
require_confirmation s =
    if s.confirmed then Result.ok s else Result.err Problem.confirmation_required

abbrev pub max_failures : ℕ
max_failures = 5

abbrev pub confirmed_row : ℕ → Row → Row
confirmed_row now r = record r { confirmed_at = some now; last_seen_at = now; confirm_failures = 0 }

abbrev pub failed_row : Row → Row
failed_row r = record r { confirm_failures = suc r.confirm_failures }

abbrev pub failed_confirmation : List Row → Text → Option Row → List Row × Result Problem Bool
failed_confirmation db hash none = (db, Result.err Problem.internal)
failed_confirmation db hash (some r) =
    if leb max_failures (suc r.confirm_failures)
    then (
      delete_where (has_hash hash) (update_where (has_hash hash) failed_row db),
      Result.err Problem.unauthenticated,
    )
    else (update_where (has_hash hash) failed_row db, Result.err Problem.second_factor_invalid)

-- The rest of `confirm`, once it is known whether the answer was right.
unfoldable pub confirm : List Row → Text → Bool → ℕ → List Row × Result Problem Bool
confirm db hash right now =
    if right
    then (update_where (has_hash hash) (confirmed_row now) db, Result.ok true)
    else failed_confirmation db hash (find (has_hash hash) db)
