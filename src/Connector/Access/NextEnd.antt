-- ===== src/Connector/Access/NextEnd.antt =====
-- `Snapshot::next_end` in crates/connector/src/access.rs: when something open closes next.
use remotehub.Base.{
  Bool, true, false, ◌&&◌, not, Option, none, some, List, [], ◌∷◌, ltb, leb, ◌=?◌, any, arith, ◌≡◌,
  refl,
}
use remotehub.Connector.Access.Defs.{Time, is_open, closes_at, Scope, Stored, all_stored, Snapshot}
use remotehub.Connector.Access.Queries.{least_end, next_end}

abbrev pub holds : (Time → Bool) → Option Time → Bool
holds test none = false
holds test (some t) = test t

-- Open now, with an end, which the test holds of.
abbrev pub open_ending : (Time → Bool) → Time → Scope × Stored → Bool
open_ending test now e = is_open e.1.access now && holds test (closes_at e.1.access)

least_end-some :
    (xs : List (Scope × Stored)) (now t : Time)
    → least_end xs now ≡ some t
    → any (open_ending (λ u. u =? t) now) xs ≡ true
unfolding least_end
least_end-some [] now t h = ground arith
least_end-some (x ∷ xs) now t h = ground (arith, least_end-some xs now t)

-- The end, if there is one, is not before a time.
abbrev pub not_before : Time → Option Time → Bool
not_before b none = true
not_before b (some t) = leb b t

pub least_end-not_before :
    (xs : List (Scope × Stored)) (now b : Time)
    → not_before b (least_end xs now) ≡ not (any (open_ending (λ v. ltb v b) now) xs)
unfolding least_end
least_end-not_before [] now b = refl
least_end-not_before (x ∷ xs) now b = ground (arith, least_end-not_before xs now b)

-- The next end that is told is an end of something that is open now, and nothing that is open now
-- ends before it.
pub next_end-least :
    (s : Snapshot) (now t : Time)
    → next_end s now ≡ some t
    → (any (open_ending (λ u. u =? t) now) (all_stored s.access) ≡ true)
      × (any (open_ending (λ u. ltb u t) now) (all_stored s.access) ≡ false)
unfolding next_end
next_end-least s now t h = (
  least_end-some (all_stored s.access) now t h,
  ground (arith, least_end-not_before (all_stored s.access) now t),
)
