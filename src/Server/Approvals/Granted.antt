-- ===== src/Server/Approvals/Granted.antt =====
-- A decision that is taken: by whom, on which request, and the tables after an approval.
use mathlib.Core.Option.{some-injective}
use remotehub.Base.{
  ℕ, true, false, Option, none, some, List, [], ◌∷◌, ◌++◌, inl, inr, ◌≡◌, refl, sym, ap, ◌∙◌,
  if◌then◌else◌, ◌=?◌, find, Bool-cases, Memᴰ,
}
use remotehub.Base.Result.{Result}
use remotehub.Catalog.Defs.{Uuid, ObjectId, Grant}
use remotehub.Catalog.Roles.{may_approve}
use remotehub.Server.Approvals.{Request, Tables, Asker, Problem, is_pending, catalog_at, target_of}
use remotehub.Server.Approvals.Decisions.{
  Decision, has_id, decided, update_id, with_grant, decide_on, decide_found, decide,
}

-- A decision that was taken: of whom, on which request and object, and what it leaves.
pub Decided : Tables → Asker → ℕ → Uuid → Decision → Tables → Type 0
Decided t asker now id decision after =
    (r : Request) × (target : ObjectId) × (find (has_id id) t.requests ≡ some r)
    × (target_of r ≡ some target)
    × (may_approve (catalog_at t now) asker.subject target ≡ true)
    × ((r.requester_id =? asker.user_id) ≡ false)
    × (is_pending r.status ≡ true)
    × (after ≡ record t {
      grants = with_grant decision target now r t.grants;
      requests = update_id r.id (decided decision asker.user_id now) t.requests;
    })

decide_on-Decided :
    (t after : Tables) (asker : Asker) (now : ℕ) (id out : Uuid) (decision : Decision) (r : Request)
    (o : Option ObjectId)
    → find (has_id id) t.requests ≡ some r
    → target_of r ≡ o
    → decide_on t asker now decision r o ≡ (after, Result.ok out)
    → Decided t asker now id decision after
unfolding Decided
decide_on-Decided t after asker now id out decision r none found e h =
    let bad : Result.err Problem.not_found ≡ Result.ok out = ap (λ a. a.1) h in cc
decide_on-Decided t after asker now id out decision r (some target) found e h =
    elim (Bool-cases (may_approve (catalog_at t now) asker.subject target)) [
      | inr n ↦ let bad = ap (λ a. a.1) (rw (n, if◌then◌else◌) at h) in cc
      | inl may ↦ elim (Bool-cases (r.requester_id =? asker.user_id)) [
        | inl own ↦ let bad = ap (λ a. a.1) (rw (may, if◌then◌else◌, own, if◌then◌else◌) at h) in cc
        | inr other ↦ elim (Bool-cases (is_pending r.status)) [
          | inr n ↦
              let bad =
                ap (λ a. a.1)
                  (rw (may, if◌then◌else◌, other, if◌then◌else◌, n, if◌then◌else◌) at h) in
              cc
          | inl waits ↦
              let made =
                ap (λ a. a.0)
                  (rw (may, if◌then◌else◌, other, if◌then◌else◌, waits, if◌then◌else◌) at h) in
              (r, target, found, e, may, other, waits, sym made)
        ]
      ]
    ]

-- A decision that is taken is another's than the requester's, who may approve on the object, on a
-- request that waits.
pub decide-Decided :
    (t after : Tables) (asker : Asker) (now : ℕ) (id out : Uuid) (decision : Decision)
    → decide t asker now id decision ≡ (after, Result.ok out)
    → Decided t asker now id decision after
unfolding decide
decide-Decided t after asker now id out decision h = of_found (find (has_id id) t.requests) refl h
  where
    of_found :
        (o : Option Request)
        → find (has_id id) t.requests ≡ o
        → decide_found t asker now decision o ≡ (after, Result.ok out)
        → Decided t asker now id decision after
    of_found none e h =
        let bad : Result.err Problem.not_found ≡ Result.ok out = ap (λ a. a.1) h in cc
    of_found (some r) e h =
        decide_on-Decided t after asker now id out decision r (target_of r) e refl h

pub Memᴰ-last : (g : Grant) (gs : List Grant) → Memᴰ g (gs ++ g ∷ [])
Memᴰ-last g [] = Memᴰ.head refl
Memᴰ-last g (x ∷ gs) = Memᴰ.tail (Memᴰ-last g gs)

-- The tables after an approval of the request that is found.
pub approve-tables :
    (t after : Tables) (asker : Asker) (now : ℕ) (id out : Uuid) (r : Request) (target : ObjectId)
    → decide t asker now id Decision.approve ≡ (after, Result.ok out)
    → find (has_id id) t.requests ≡ some r
    → target_of r ≡ some target
    → after ≡ record t {
      grants = with_grant Decision.approve target now r t.grants;
      requests = update_id r.id (decided Decision.approve asker.user_id now) t.requests;
    }
unfolding Decided
approve-tables t after asker now id out r target h found aimed =
    let (r2, target2, found2, aimed2, may, other, waits, made) =
      decide-Decided t after asker now id out Decision.approve h in
    let same : r2 ≡ r = some-injective _ _ (sym found2 ∙ found) in
    let same_target : target2 ≡ target =
      some-injective _ _ (sym aimed2 ∙ (ap target_of same ∙ aimed)) in
    rw (← same, ← same_target) made
