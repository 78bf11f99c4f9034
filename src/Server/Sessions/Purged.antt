-- ===== src/Server/Sessions/Purged.antt =====
-- What the purge removes is of no use any more.
use remotehub.Base.{
  ℕ, ◌+◌, ◌≤◌, Bool, true, false, ◌&&◌, List, [], ◌∷◌, arith, ◌≡◌, refl, ap, inl, inr,
  if◌then◌else◌, find, length, Bool-cases,
}
use remotehub.Base.Text.{Text, text_eq}
use remotehub.Server.Sessions.{
  Row, has_hash, is_valid, is_past, delete_where, affected, read_row, by_hash, purge,
}

over-invalid :
    (idle t u : ℕ) (r : Row) → t ≤ u → is_past idle t r ≡ true → is_valid idle u r ≡ false
unfolding is_valid
over-invalid idle t u r le h = ground arith

find-delete_where :
    (p q : Row → Bool)
    → ((r : Row) → p r ≡ true → q r ≡ false)
    → (db : List Row) → find q (delete_where p db) ≡ find q db
find-delete_where p q apart [] = refl
find-delete_where p q apart (r ∷ db) = elim (Bool-cases (p r)) [
  | inl y ↦ rw (y, apart r y, if◌then◌else◌) (find-delete_where p q apart db)
  | inr n ↦ rw (n, if◌then◌else◌) (ground (arith, find-delete_where p q apart db))
]

counted : (p : Row → Bool) (db : List Row) → affected p db + length (delete_where p db) ≡ length db
counted p [] = omega arith
counted p (r ∷ db) = ground (arith, counted p db)

-- A purge at any time up to now takes no session away that would be found, and what it says it removed
-- is what is missing.
pub by_hash-purge :
    (db : List Row) (hash : Text) (idle t u : ℕ)
    → t ≤ u
    → (by_hash (purge db idle t).0 hash idle u ≡ by_hash db hash idle u)
      × ((purge db idle t).1 + length (purge db idle t).0 ≡ length db)
unfolding by_hash purge
by_hash-purge db hash idle t u le = (
  ap (read_row idle u) (
      find-delete_where (is_past idle t) (λ r. has_hash hash r && is_valid idle u r)
        (λ r over. ground (arith, over-invalid idle t u r le over)) db),
  counted (is_past idle t) db,
)
