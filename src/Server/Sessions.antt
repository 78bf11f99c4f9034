-- ===== src/Server/Sessions.antt =====
-- crates/server/src/session.rs: sessions, as the rows of their table, with what each SQL statement does
-- to them. Points in time are seconds; `now() - interval < t` is written `now < t + interval`, since
-- the times stand long after the first one. The hash of a token (SHA-256) stands for the token, and
-- its uniqueness is that of the table's primary key.
pub mod Cookies
pub mod Requests
pub mod Locked
pub mod Purged
pub mod Confirmed
pub mod Active
mod Tests
use remotehub.Base.{
  ℕ, suc, ◌+◌, Bool, true, false, ◌&&◌, ◌||◌, not, Option, none, some, List, [], ◌∷◌, ◌++◌,
  if◌then◌else◌, leb, ltb, ◌=?◌, ◌==◌, any, find, filter, length, map,
}
use remotehub.Base.Text.{Text, text, text_eq}

-- A row of the table, with whether its user is blocked.
pub record Row : Type 0 where
  pub token_hash : Text
  pub user_id : ℕ
  pub client : Text
  pub groups : List Text
  pub blocked : Bool
  pub expires_at : ℕ
  pub last_seen_at : ℕ
  pub confirmed_at : Option ℕ
  pub confirm_failures : ℕ

-- What the handlers read of a row: the part of `Session` that says whose it is and what it may do.
pub record Session : Type 0 where
  pub token_hash : Text
  pub client : Text
  pub user_id : ℕ
  pub groups : List Text
  pub locked : Bool
  pub confirmed : Bool

abbrev pub web : Text
web = text "web"

abbrev pub extension : Text
extension = text "extension"

-- `CONFIRMED_FOR`
abbrev pub confirmed_for : ℕ
confirmed_for = 60

abbrev pub minute : ℕ
minute = 60

abbrev pub has_hash : Text → Row → Bool
has_hash hash r = r.token_hash == hash

-- `last_seen_at <= now() - make_interval(secs => $2)`
abbrev pub is_idle : ℕ → ℕ → Row → Bool
is_idle idle now r = leb (r.last_seen_at + idle) now

abbrev pub recent : ℕ → Option ℕ → Bool
recent now none = false
recent now (some at) = ltb now (at + confirmed_for)

unfoldable pub session_of : ℕ → ℕ → Row → Session
session_of idle now r = record {
  token_hash = r.token_hash;
  client = r.client;
  user_id = r.user_id;
  groups = r.groups;
  locked = is_idle idle now r;
  confirmed = recent now r.confirmed_at;
}

-- The conditions of the query in `by_hash`.
unfoldable pub is_valid : ℕ → ℕ → Row → Bool
is_valid idle now r =
    not r.blocked
    && (ltb now r.expires_at && ((r.client == web) || ltb now (r.last_seen_at + idle)))

abbrev pub read_row : ℕ → ℕ → Option Row → Option Session
read_row idle now none = none
read_row idle now (some r) = some (session_of idle now r)

unfoldable pub by_hash : List Row → Text → ℕ → ℕ → Option Session
unfolding session_of is_valid
by_hash db hash idle now = read_row idle now (find (λ r. has_hash hash r && is_valid idle now r) db)

-- An `UPDATE` of the rows that a condition holds of, and a `DELETE`.
abbrev pub update_where : (Row → Bool) → (Row → Row) → List Row → List Row
update_where p f [] = []
update_where p f (r ∷ db) = (if p r then f r else r) ∷ update_where p f db

abbrev pub delete_where : (Row → Bool) → List Row → List Row
delete_where p db = filter (λ r. not (p r)) db

abbrev pub affected : (Row → Bool) → List Row → ℕ
affected p db = length (filter p db)

-- `create` and `create_extension`; a second row with a token's hash is refused.
abbrev pub new_row : Text → ℕ → Text → List Text → Bool → ℕ → ℕ → Row
new_row hash user client groups blocked max now = record {
  token_hash = hash;
  user_id = user;
  client = client;
  groups = groups;
  blocked = blocked;
  expires_at = now + max;
  last_seen_at = now;
  confirmed_at = none;
  confirm_failures = 0;
}

unfoldable pub create : List Row → Text → ℕ → Text → List Text → Bool → ℕ → ℕ → Option (List Row)
create db hash user client groups blocked max now =
    if any (has_hash hash) db
    then none
    else some (db ++ new_row hash user client groups blocked max now ∷ [])

abbrev pub seen_at : ℕ → Row → Row
seen_at now r = record r { last_seen_at = now }

abbrev pub is_touched : Text → ℕ → ℕ → Row → Bool
is_touched hash idle now r =
    has_hash hash r && (ltb (r.last_seen_at + minute) now && ltb now (r.last_seen_at + idle))

unfoldable pub touch : List Row → Text → ℕ → ℕ → List Row
touch db hash idle now = update_where (is_touched hash idle now) (seen_at now) db

-- `find`: the session, and the table after it.
abbrev pub kept_alive : List Row → Text → ℕ → ℕ → Bool → Option Session → List Row × Option Session
kept_alive db hash idle now keep_alive none = (db, none)
kept_alive db hash idle now keep_alive (some s) =
    (if keep_alive && not s.locked then touch db hash idle now else db, some s)

unfoldable pub find_session : List Row → Text → ℕ → ℕ → Bool → List Row × Option Session
unfolding by_hash touch
find_session db hash idle now keep_alive =
    kept_alive db hash idle now keep_alive (by_hash db hash idle now)

unfoldable pub lookup : List Row → Text → ℕ → ℕ → List Row × Option Session
unfolding find_session
lookup db hash idle now = find_session db hash idle now true

unfoldable pub delete : List Row → Text → List Row
delete db hash = delete_where (has_hash hash) db

abbrev pub is_past : ℕ → ℕ → Row → Bool
is_past idle now r = leb r.expires_at now || (not (r.client == web) && is_idle idle now r)

-- `purge`, and the number of rows it removed; the extension's codes are no part of the model.
unfoldable pub purge : List Row → ℕ → ℕ → List Row × ℕ
purge db idle now = (delete_where (is_past idle now) db, affected (is_past idle now) db)
