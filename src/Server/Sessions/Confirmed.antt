-- ===== src/Server/Sessions/Confirmed.antt =====
-- What a confirmation does: a right one unlocks the session, five wrong ones in a row end it.
use mathlib.Core.Option.{some-injective}
use remotehub.Base.{
  ℕ, zero, suc, ◌+◌, ◌≤◌, ◌<◌, Bool, true, false, ◌&&◌, Option, none, some, List, [], ◌∷◌, inl, inr,
  arith, ◌≡◌, refl, subst, if◌then◌else◌, leb, ltb, find, Bool-cases,
}
use remotehub.Base.Text.{Text, text_eq}
use remotehub.Server.Sessions.{
  Row, Session, has_hash, is_valid, session_of, read_row, update_where, delete_where, affected,
  by_hash,
}
use remotehub.Server.Sessions.Requests.{
  max_failures, confirmed_row, failed_row, failed_confirmation, confirm,
}

-- Wrong confirmations of a session, one after the other.
abbrev pub wrong_times : ℕ → List Row → Text → ℕ → List Row
wrong_times zero db hash now = db
wrong_times (suc n) db hash now = wrong_times n (confirm db hash false now).0 hash now

find-update :
    (p : Row → Bool) (f : Row → Row)
    → ((r : Row) → p (f r) ≡ p r)
    → (db : List Row) (r : Row) → find p db ≡ some r
    → find p (update_where p f db) ≡ some (f r)
find-update p f same [] r h = cc
find-update p f same (x ∷ db) r h = elim (Bool-cases (p x)) [
  | inl y ↦
      let here : x ≡ r = some-injective _ _ (rw (y, if◌then◌else◌) at h) in
      rw (y, if◌then◌else◌, same x, y, here) refl
  | inr n ↦ rw (n, if◌then◌else◌, n) (find-update p f same db r (rw (n, if◌then◌else◌) at h))
]

find-deleted : (p : Row → Bool) (db : List Row) → find p (delete_where p db) ≡ none
find-deleted p [] = refl
find-deleted p (r ∷ db) = ground (arith, find-deleted p db)

Counts : Option Row → ℕ → Type 0
Counts none n = true ≡ true
Counts (some r) n = n ≤ r.confirm_failures

After : Option Row → ℕ → Type 0
After none n = true ≡ true
After (some r) n = (n ≤ r.confirm_failures) × (r.confirm_failures < max_failures)

wrong-After :
    (db : List Row) (hash : Text) (now n : ℕ) (o : Option Row)
    → find (has_hash hash) db ≡ o
    → Counts o n
    → After (find (has_hash hash) (failed_confirmation db hash o).0) (suc n)
unfolding Counts After
wrong-After db hash now n none e h = rw e refl
wrong-After db hash now n (some r) e h =
    elim (Bool-cases (leb max_failures (suc r.confirm_failures))) [
      | inl y ↦ rw (y, if◌then◌else◌, find-deleted) refl
      | inr m ↦
          rw (m, if◌then◌else◌, find-update (has_hash hash) failed_row (λ x. refl) db r e)
            (ground arith, ground arith)
    ]

After-Counts : (o : Option Row) (n : ℕ) → After o n → Counts o n
unfolding Counts After
After-Counts none n h = refl
After-Counts (some r) n h = h.0

wrong_times-After :
    (n k : ℕ) (db : List Row) (hash : Text) (now : ℕ)
    → Counts (find (has_hash hash) db) k
    → After (find (has_hash hash) (wrong_times (suc n) db hash now)) (k + suc n)
unfolding confirm
wrong_times-After zero k db hash now h =
    subst (λ m. After (find (has_hash hash) (confirm db hash false now).0) m) (omega arith)
      (wrong-After db hash now k (find (has_hash hash) db) refl h)
wrong_times-After (suc n) k db hash now h =
    let one = wrong-After db hash now k (find (has_hash hash) db) refl h in
    let more = (confirm db hash false now).0 in
    subst (λ m. After (find (has_hash hash) (wrong_times (suc n) more hash now)) m) (omega arith)
      (wrong_times-After n (suc k) more hash now
        (After-Counts (find (has_hash hash) more) (suc k) one))

none-After : (o : Option Row) → After o 5 → o ≡ none
unfolding After
none-After none h = refl
none-After (some r) h = absurd (omega (arith, h.0, h.1))

none_counts : (o : Option Row) → Counts o 0
unfolding Counts
none_counts none = refl
none_counts (some r) = omega arith

find-both : (p q : Row → Bool) (db : List Row) → find p db ≡ none → find (λ r. p r && q r) db ≡ none
find-both p q [] h = refl
find-both p q (r ∷ db) h = ground (arith, find-both p q db)

-- Five wrong confirmations of a session in a row end it, however many there were before: no request
-- finds it any more.
pub wrong_times-ends :
    (db : List Row) (hash : Text) (idle now later : ℕ)
    → by_hash (wrong_times 5 db hash now) hash idle later ≡ none
unfolding by_hash
wrong_times-ends db hash idle now later =
    let gone =
      none-After (find (has_hash hash) (wrong_times 5 db hash now))
        (wrong_times-After 4 0 db hash now (none_counts (find (has_hash hash) db))) in
    rw (find-both (has_hash hash) (is_valid idle later) (wrong_times 5 db hash now) gone) refl

unfound :
    (hash : Text) (idle t : ℕ) (db : List Row)
    → affected (has_hash hash) db ≡ 0
    → find (λ r. has_hash hash r && is_valid idle t r) db ≡ none
unfound hash idle t [] h = refl
unfound hash idle t (r ∷ db) h = ground (arith, unfound hash idle t db)

confirmed-valid :
    (idle t : ℕ) (r : Row)
    → 0 < idle
    → is_valid idle t r ≡ true
    → is_valid idle t (confirmed_row t r) ≡ true
unfolding is_valid
confirmed-valid idle t r some_idle h = ground arith

find-confirmed :
    (hash : Text) (idle t : ℕ) (db : List Row) (r : Row)
    → 0 < idle
    → affected (has_hash hash) db ≡ 1
    → find (λ x. has_hash hash x && is_valid idle t x) db ≡ some r
    → find
        (λ x. has_hash hash x && is_valid idle t x)
        (update_where (has_hash hash) (confirmed_row t) db)
      ≡ some (confirmed_row t r)
find-confirmed hash idle t [] r some_idle one h = cc
find-confirmed hash idle t (x ∷ db) r some_idle one h = elim (Bool-cases (has_hash hash x)) [
  | inl y ↦ elim (Bool-cases (is_valid idle t x)) [
    | inl good ↦
        let here : x ≡ r = some-injective _ _ (rw (y, good, if◌then◌else◌) at h) in
        rw (y, if◌then◌else◌, y, confirmed-valid idle t x some_idle good, here) refl
    | inr bad ↦
        let rest = unfound hash idle t db (ground arith) in
        cc (rest, (rw (y, bad, if◌then◌else◌) at h))
  ]
  | inr n ↦
      rw (n, if◌then◌else◌, n)
        (find-confirmed hash idle t db r some_idle (ground arith) (rw (n, if◌then◌else◌) at h))
]

-- A right confirmation unlocks a session that is there, and confirms it, when the idle time is not
-- zero and the table has one row of that hash, as its primary key sees to.
pub confirm-unlocks :
    (db : List Row) (hash : Text) (idle t : ℕ) (s : Session)
    → 0 < idle
    → affected (has_hash hash) db ≡ 1
    → by_hash db hash idle t ≡ some s
    → by_hash (confirm db hash true t).0 hash idle t
      ≡ some (record s { locked = false; confirmed = true })
unfolding by_hash confirm session_of
confirm-unlocks db hash idle t s some_idle one found =
    of_row (find (λ r. has_hash hash r && is_valid idle t r) db) refl found
  where
    of_row :
        (o : Option Row)
        → find (λ r. has_hash hash r && is_valid idle t r) db ≡ o
        → read_row idle t o ≡ some s
        → read_row idle t (
            find
              (λ r. has_hash hash r && is_valid idle t r)
              (update_where (has_hash hash) (confirmed_row t) db))
          ≡ some (record s { locked = false; confirmed = true })
    of_row none e found = cc
    of_row (some r) e found =
        let same : session_of idle t r ≡ s = some-injective _ _ found in
        let awake : leb (t + idle) t ≡ false = ground arith in
        let fresh : ltb t (t + 60) ≡ true = ground arith in
        rw (find-confirmed hash idle t db r some_idle one e, ← same, awake, fresh) refl
