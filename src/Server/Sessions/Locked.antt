-- ===== src/Server/Sessions/Locked.antt =====
-- A session that is locked stays locked until it is confirmed, whatever else happens meanwhile.
use mathlib.Core.Option.{some-injective}
use remotehub.Base.{
  ℕ, suc, ◌≤◌, Bool, true, false, ◌&&◌, ◌||◌, not, Option, none, some, List, [], ◌∷◌, ◌++◌, ◌⊎◌,
  inl, inr, arith, ◌≡◌, refl, if◌then◌else◌, leb, ◌=?◌, ◌==◌, all, any, find, filter, Bool-cases,
  find-Memᴰ, find-eq-some, all-Memᴰ,
}
use remotehub.Base.Decimal.{all-append}
use remotehub.Base.Result.{Result}
use remotehub.Base.Text.{Text, text_eq}
use remotehub.Server.Sessions.{
  web, Row, Session, has_hash, is_idle, is_valid, is_touched, seen_at, session_of, read_row,
  update_where, by_hash, create, new_row, touch, kept_alive, find_session, delete, purge,
}
use remotehub.Server.Sessions.Cookies.{token}
use remotehub.Server.Sessions.Active.{
  Activity, is_unlocked, used_at, just_checked, checked_now, input,
}
use remotehub.Server.Sessions.Requests.{
  Problem, confirmed_row, failed_row, max_failures, failed_confirmation, confirm, of_web,
  unlocked_only, any_session, page_session,
}

abbrev pub with_blocked : Bool → Row → Row
with_blocked b r = record r { blocked = b }

-- What may happen to the table, and the time, without a confirmation of the session: requests of any
-- session, input into its connections, sign-ins with another token, sign-outs, the purge, users that
-- are blocked or not, and wrong confirmations, or those of other sessions.
pub data Step (hash : Text) (idle : ℕ) : ℕ → List Row → ℕ → List Row → Type 0 where
  passes : {t u : ℕ} {db : List Row} → t ≤ u → Step hash idle t db u db
  requests :
      {t : ℕ} {db : List Row} (other : Text) (keep_alive : Bool)
      → Step hash idle t db t (find_session db other idle t keep_alive).0
  types :
      {t : ℕ} {db : List Row} (other : Text) (a : Activity) (clock : ℕ) (reached : Bool)
      → Step hash idle t db t (input db a other idle clock t reached).0
  signs_in :
      {t : ℕ} {db more : List Row} (other : Text) (user : ℕ) (client : Text) (groups : List Text)
      (blocked : Bool) (max : ℕ)
      → (other == hash) ≡ false
      → create db other user client groups blocked max t ≡ some more
      → Step hash idle t db t more
  signs_out : {t : ℕ} {db : List Row} (other : Text) → Step hash idle t db t (delete db other)
  purges : {t : ℕ} {db : List Row} → Step hash idle t db t (purge db idle t).0
  blocks :
      {t : ℕ} {db : List Row} (user : ℕ) (b : Bool)
      → Step hash idle t db t (update_where (λ r. r.user_id =? user) (with_blocked b) db)
  fails :
      {t : ℕ} {db : List Row} (other : Text) → Step hash idle t db t (confirm db other false t).0
  confirms :
      {t : ℕ} {db : List Row} (other : Text)
      → (other == hash) ≡ false
      → Step hash idle t db t (confirm db other true t).0

pub data Steps (hash : Text) (idle : ℕ) : ℕ → List Row → ℕ → List Row → Type 0 where
  done : {t : ℕ} {db : List Row} → Steps hash idle t db t db
  then_step :
      {t u v : ℕ} {db more rest : List Row}
      → Step hash idle t db u more
      → Steps hash idle u more v rest
      → Steps hash idle t db v rest

abbrev pub locked_row : Text → ℕ → ℕ → Row → Bool
locked_row hash idle now r = not (has_hash hash r) || is_idle idle now r

abbrev pub IsLocked : Text → ℕ → ℕ → List Row → Type 0
IsLocked hash idle now db = all (locked_row hash idle now) db ≡ true

pub update_where-all :
    (q p : Row → Bool) (f : Row → Row)
    → ((r : Row) → p r ≡ true → q r ≡ true → q (f r) ≡ true)
    → (db : List Row) → all q db ≡ true
    → all q (update_where p f db) ≡ true
update_where-all q p f keeps [] h = refl
update_where-all q p f keeps (r ∷ db) h = elim (Bool-cases (p r)) [
  | inl y ↦ rw (y, if◌then◌else◌) (ground (arith, keeps r y, update_where-all q p f keeps db))
  | inr n ↦ rw (n, if◌then◌else◌) (ground (arith, update_where-all q p f keeps db))
]

pub filter-all : (q p : Row → Bool) (db : List Row) → all q db ≡ true → all q (filter p db) ≡ true
filter-all q p [] h = refl
filter-all q p (r ∷ db) h = ground (arith, filter-all q p db)

module _ (hash : Text) (idle : ℕ) where
  passed-locked :
      (t u : ℕ) (db : List Row)
      → t ≤ u
      → all (locked_row hash idle t) db ≡ true
      → all (locked_row hash idle u) db ≡ true
  passed-locked t u [] le h = refl
  passed-locked t u (r ∷ db) le h = ground (arith, passed-locked t u db)

  touch-locked :
      (t : ℕ) (db : List Row) (other : Text)
      → all (locked_row hash idle t) db ≡ true
      → all (locked_row hash idle t) (touch db other idle t) ≡ true
  unfolding touch
  touch-locked t db other h =
      update_where-all (locked_row hash idle t) (is_touched other idle t) (seen_at t)
        (λ r p q. ground arith) db h

  find_session-locked :
      (t : ℕ) (db : List Row) (other : Text) (keep_alive : Bool)
      → all (locked_row hash idle t) db ≡ true
      → all (locked_row hash idle t) (find_session db other idle t keep_alive).0 ≡ true
  unfolding find_session
  find_session-locked t db other keep_alive h = of_found (by_hash db other idle t)
    where
      of_found :
          (o : Option Session)
          → all (locked_row hash idle t) (kept_alive db other idle t keep_alive o).0 ≡ true
      of_found none = h
      of_found (some s) = ground (arith, h, touch-locked t db other h)

  input-locked :
      (t : ℕ) (db : List Row) (other : Text) (a : Activity) (clock : ℕ) (reached : Bool)
      → all (locked_row hash idle t) db ≡ true
      → all (locked_row hash idle t) (input db a other idle clock t reached).0 ≡ true
  unfolding input
  input-locked t db other a clock reached h =
      let marked : all (locked_row hash idle t)
            (update_where (is_unlocked other idle t) (used_at t) db)
          ≡ true =
        update_where-all (locked_row hash idle t) (is_unlocked other idle t) (used_at t)
          (λ r p q. ground arith) db h in
      either (just_checked clock a.is_open a.checked) reached marked
    where
      either :
          (b c : Bool)
          → all (locked_row hash idle t) (update_where (is_unlocked other idle t) (used_at t) db)
            ≡ true
          → all
              (locked_row hash idle t)
              (if b then (db, a) else checked_now db a other idle clock t c).0
            ≡ true
      either true c marked = h
      either false true marked = marked
      either false false marked = h

  fail-locked :
      (t : ℕ) (db : List Row) (other : Text)
      → all (locked_row hash idle t) db ≡ true
      → all (locked_row hash idle t) (confirm db other false t).0 ≡ true
  unfolding confirm
  fail-locked t db other h = of_row (find (has_hash other) db)
    where
      failed : all (locked_row hash idle t) (update_where (has_hash other) failed_row db) ≡ true
      failed =
          update_where-all (locked_row hash idle t) (has_hash other) failed_row (λ r p q. q) db h

      of_row :
          (o : Option Row) → all (locked_row hash idle t) (failed_confirmation db other o).0 ≡ true
      of_row none = h
      of_row (some r) = elim (Bool-cases (leb max_failures (suc r.confirm_failures))) [
        | inl y ↦
            rw (y, if◌then◌else◌)
              (filter-all (locked_row hash idle t) (λ r. not (has_hash other r))
                (update_where (has_hash other) failed_row db) failed)
        | inr n ↦ rw (n, if◌then◌else◌) failed
      ]

  step-locked :
      {t u : ℕ} {db more : List Row}
      → Step hash idle t db u more
      → all (locked_row hash idle t) db ≡ true
      → all (locked_row hash idle u) more ≡ true
  unfolding create delete purge confirm
  step-locked {t} {u} {db} (passes le) h = passed-locked t u db le h
  step-locked {t} {db = db} (requests other keep_alive) h =
      find_session-locked t db other keep_alive h
  step-locked {t} {db = db} (types other a clock reached) h =
      input-locked t db other a clock reached h
  step-locked {t} {db = db} (signs_in other user client groups blocked max differs made) h =
      elim (Bool-cases (any (has_hash other) db)) [
        | inl y ↦ cc (rw (y, if◌then◌else◌) at made)
        | inr n ↦
            let row = new_row other user client groups blocked max t in
            let same : db ++ row ∷ [] ≡ _ = some-injective _ _ (rw (n, if◌then◌else◌) at made) in
            rw (← same, all-append, h, differs) refl
      ]
  step-locked {db = db} (signs_out other) h = filter-all _ _ db h
  step-locked {db = db} purges h = filter-all _ _ db h
  step-locked {t} {db = db} (blocks user b) h =
      update_where-all (locked_row hash idle t) (λ r. r.user_id =? user) (with_blocked b)
        (λ r p q. q) db h
  step-locked {t} {db = db} (fails other) h = fail-locked t db other h
  step-locked {t} {db = db} (confirms other differs) h =
      update_where-all (locked_row hash idle t) (has_hash other) (confirmed_row t)
        (λ r p q.
          ground (arith, text_eq.test_iff r.token_hash other, text_eq.test_iff r.token_hash hash))
        db h

  steps-locked :
      {t u : ℕ} {db more : List Row}
      → Steps hash idle t db u more
      → all (locked_row hash idle t) db ≡ true
      → all (locked_row hash idle u) more ≡ true
  steps-locked done h = h
  steps-locked (then_step one rest) h = steps-locked rest (step-locked one h)

  found_locked :
      (t : ℕ) (db : List Row) (s : Session)
      → all (locked_row hash idle t) db ≡ true
      → by_hash db hash idle t ≡ some s
      → s.locked ≡ true
  unfolding by_hash session_of
  found_locked t db s h found =
      of_row (find (λ r. has_hash hash r && is_valid idle t r) db) refl found
    where
      of_row :
          (o : Option Row)
          → find (λ r. has_hash hash r && is_valid idle t r) db ≡ o
          → read_row idle t o ≡ some s
          → s.locked ≡ true
      of_row none e found = cc
      of_row (some r) e found =
          let picked = find-eq-some (λ r. has_hash hash r && is_valid idle t r) db e in
          let kept =
            all-Memᴰ (locked_row hash idle t) db h
              (find-Memᴰ (λ r. has_hash hash r && is_valid idle t r) db e) in
          let idle_now : is_idle idle t r ≡ true = ground arith in
          let same : session_of idle t r ≡ s = some-injective _ _ found in rw (← same) idle_now

  none_unlocked :
      (t : ℕ) (db : List Row)
      → all (locked_row hash idle t) db ≡ true
      → filter (is_unlocked hash idle t) db ≡ []
  none_unlocked t [] h = refl
  none_unlocked t (r ∷ db) h = ground (arith, none_unlocked t db)

pub IsRefused : Result Problem Session → Type 0
IsRefused o = (o ≡ Result.err Problem.unauthenticated) ⊎ (o ≡ Result.err Problem.session_locked)

page_session-IsRefused :
    (sha256 : Text → Text) (db : List Row) (headers : List (Option Text)) (background : Bool)
    (idle t : ℕ) (cookie : Text)
    → token headers ≡ some cookie
    → all (locked_row (sha256 cookie) idle t) db ≡ true
    → IsRefused (page_session sha256 db headers background idle t).1
unfolding page_session any_session IsRefused find_session
page_session-IsRefused sha256 db headers background idle t cookie sent h =
    rw sent (of_found (by_hash db (sha256 cookie) idle t) refl)
  where
    of_found :
        (o : Option Session)
        → by_hash db (sha256 cookie) idle t ≡ o
        → IsRefused
            (unlocked_only (of_web (kept_alive db (sha256 cookie) idle t (not background) o).1))
    of_found none e = inl refl
    of_found (some s) e =
        let locked = found_locked (sha256 cookie) idle t db s h e in
        elim (Bool-cases (s.client == web)) [
          | inl y ↦ inr (rw (y, if◌then◌else◌, locked) refl)
          | inr n ↦ inl (rw (n, if◌then◌else◌) refl)
        ]

-- While a session is locked, whatever happens but a right confirmation of it and a sign-in with the
-- very same token, at later times too: a request with its cookie is refused, and of input into its
-- connections nothing goes on once it is checked and the database answers.
pub locked_until_confirmed :
    (sha256 : Text → Text) (cookie : Text) (headers : List (Option Text)) (background : Bool)
    (idle t u clock : ℕ) (db more : List Row) (a : Activity)
    → token headers ≡ some cookie
    → IsLocked (sha256 cookie) idle t db
    → Steps (sha256 cookie) idle t db u more
    → just_checked clock a.is_open a.checked ≡ false
    → IsRefused (page_session sha256 more headers background idle u).1
      × ((input more a (sha256 cookie) idle clock u true).1.is_open ≡ false)
unfolding input
locked_until_confirmed sha256 cookie headers background idle t u clock db more a sent h steps due =
    let later = steps-locked (sha256 cookie) idle steps h in
    (
      page_session-IsRefused sha256 more headers background idle u cookie sent later,
      rw (due, if◌then◌else◌, none_unlocked (sha256 cookie) idle u more later) refl,
    )
