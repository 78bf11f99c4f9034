-- ===== src/Server/Approvals/Rows.antt =====
-- Rows of requests with ids of their own, each approved by another than the requester or not at all.
use mathlib.Core.Option.{some-injective}
use remotehub.Base.{
  Bool, true, false, ◌&&◌, ◌||◌, not, Option, none, some, List, [], ◌∷◌, inl, inr, arith, ◌≡◌, refl,
  if◌then◌else◌, ◌=?◌, all, any, find, Bool-cases,
}
use remotehub.Catalog.Defs.{Uuid}
use remotehub.Server.Approvals.{Status, Request}
use remotehub.Server.Approvals.Decisions.{has_id, update_id}

abbrev pub by_another : Option Uuid → Uuid → Bool
by_another none requester = false
by_another (some by) requester = not (requester =? by)

abbrev pub is_approved : Status → Bool
is_approved Status.approved = true
is_approved _ = false

-- Approved by someone, who is another than the requester, or not approved.
abbrev pub is_fair : Request → Bool
is_fair r = not (is_approved r.status) || by_another r.decided_by r.requester_id

abbrev pub unique_ids : List Request → Bool
unique_ids [] = true
unique_ids (r ∷ rs) = not (any (has_id r.id) rs) && unique_ids rs

module _ (f : Request → Request) (keeps : (r : Request) → (f r).id ≡ r.id) where
  update_id-any :
      (id j : Uuid) (rs : List Request) → any (has_id j) (update_id id f rs) ≡ any (has_id j) rs
  update_id-any id j [] = refl
  update_id-any id j (r ∷ rs) = ground (arith, keeps r, update_id-any id j rs)

  pub update_id_unique :
      (id : Uuid) (rs : List Request) → unique_ids rs ≡ true → unique_ids (update_id id f rs) ≡ true
  update_id_unique id [] h = refl
  update_id_unique id (r ∷ rs) h =
      ground (arith, keeps r, update_id-any id r.id rs, update_id_unique id rs)

  update_id_absent :
      (id : Uuid) (rs : List Request) → any (has_id id) rs ≡ false → update_id id f rs ≡ rs
  update_id_absent id [] h = refl
  update_id_absent id (r ∷ rs) h = ground (arith, update_id_absent id rs)

  pub update_id_fair :
      (id : Uuid) (rs : List Request) (r : Request)
      → unique_ids rs ≡ true
      → all is_fair rs ≡ true
      → find (has_id id) rs ≡ some r
      → is_fair (f r) ≡ true
      → all is_fair (update_id id f rs) ≡ true
  update_id_fair id [] r u h e g = cc
  update_id_fair id (x ∷ rs) r u h e g = elim (Bool-cases (has_id id x)) [
    | inl y ↦
        let here : x ≡ r = some-injective _ _ (rw (y, if◌then◌else◌) at e) in
        let same : x.id ≡ id = ground arith in
        let gone : any (has_id id) rs ≡ false = rw (← same) (ground arith) in
        rw (y, if◌then◌else◌, update_id_absent id rs gone, here, g) (ground arith)
    | inr n ↦
        let rest =
          update_id_fair id rs r (ground arith) (ground arith) (rw (n, if◌then◌else◌) at e) g in
        rw (n, if◌then◌else◌, rest) (ground arith)
  ]
