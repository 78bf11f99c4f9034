-- ===== src/Server/Sessions/Active.antt =====
-- `Activity`: input into an open connection, which keeps the session alive and does not reach the device
-- while the session is locked. `clock` is the process's own, `now` the database's.
use remotehub.Base.{
  ℕ, ◌+◌, Bool, false, ◌&&◌, not, Option, none, some, List, if◌then◌else◌, ltb, ◌=?◌,
}
use remotehub.Base.Text.{Text}
use remotehub.Server.Sessions.{Row, Session, has_hash, minute, seen_at, update_where, affected}

pub record Activity : Type 0 where
  pub checked : Option ℕ
  pub is_open : Bool

-- `Activity::of`
abbrev pub activity_of : Session → Activity
activity_of s = record { checked = none; is_open = not s.locked }

abbrev pub every : Bool → ℕ
every is_open = if is_open then 60 else 2

abbrev pub just_checked : ℕ → Bool → Option ℕ → Bool
just_checked clock is_open none = false
just_checked clock is_open (some at) = ltb clock (at + every is_open)

abbrev pub is_unlocked : Text → ℕ → ℕ → Row → Bool
is_unlocked hash idle now r =
    has_hash hash r && (ltb now r.expires_at && ltb now (r.last_seen_at + idle))

abbrev pub used_at : ℕ → Row → Row
used_at now r = if ltb (r.last_seen_at + minute) now then seen_at now r else r

abbrev pub mark_used : List Row → Text → ℕ → ℕ → List Row
mark_used db hash idle now = update_where (is_unlocked hash idle now) (used_at now) db

-- What the query came to: `reached` says whether the database answered. The number of rows decides.
abbrev pub checked_now : List Row → Activity → Text → ℕ → ℕ → ℕ → Bool → List Row × Activity
checked_now db a hash idle clock now reached =
    if reached
    then (
      mark_used db hash idle now,
      record { checked = some clock; is_open = affected (is_unlocked hash idle now) db =? 1 },
    )
    else (db, record { checked = some clock; is_open = a.is_open })

-- `input`; whether the input goes on is `is_open` of what it leaves.
unfoldable pub input : List Row → Activity → Text → ℕ → ℕ → ℕ → Bool → List Row × Activity
input db a hash idle clock now reached =
    if just_checked clock a.is_open a.checked
    then (db, a)
    else checked_now db a hash idle clock now reached
