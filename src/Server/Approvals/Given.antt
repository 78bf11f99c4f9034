-- ===== src/Server/Approvals/Given.antt =====
-- What an approved request gives, and to whom: the role that was asked for, until it runs out.
use mathlib.Core.List.Memᴰ
use remotehub.Base.{
  ℕ, ◌+◌, ◌*◌, ◌≤◌, ◌<◌, true, some, List, [], ◌∷◌, ◌++◌, ◌⊎◌, inl, inr, ◌↔◌, arith, ◌≡◌, subst,
  find, Memᴰ,
}
use remotehub.Base.Int.{ℤ, pos}
use remotehub.Base.Result.{Result}
use remotehub.Catalog.Defs.{
  Role, rank, Uuid, ObjectId, Subject, Grant, Objects, new, contains_object,
}
use remotehub.Catalog.Grants.{Lasts}
use remotehub.Catalog.Path.{Above}
use remotehub.Catalog.Roles.{authorize}
use remotehub.Catalog.Rights.{authorize-new_iff, contains_object-new, Above-new}
use remotehub.Server.Approvals.{Request, Tables, Asker, catalog_at, target_of}
use remotehub.Server.Approvals.Decisions.{Decision, has_id, grant_of, decide}
use remotehub.Server.Approvals.Granted.{Memᴰ-last, approve-tables}

Memᴰ-left : (g x : Grant) (gs : List Grant) → Memᴰ g gs → Memᴰ g (gs ++ x ∷ [])
Memᴰ-left g x [] m = absurd (Memᴰ.not-nil m)
Memᴰ-left g x (y ∷ gs) (Memᴰ.head e) = Memᴰ.head e
Memᴰ-left g x (y ∷ gs) (Memᴰ.tail m) = Memᴰ.tail (Memᴰ-left g x gs m)

Memᴰ-split : (g x : Grant) (gs : List Grant) → Memᴰ g (gs ++ x ∷ []) → Memᴰ g gs ⊎ (g ≡ x)
Memᴰ-split g x [] (Memᴰ.head e) = inr e
Memᴰ-split g x [] (Memᴰ.tail m) = absurd (Memᴰ.not-nil m)
Memᴰ-split g x (y ∷ gs) (Memᴰ.head e) = inl (Memᴰ.head e)
Memᴰ-split g x (y ∷ gs) (Memᴰ.tail m) = elim (Memᴰ-split g x gs m) [
  | inl n ↦ inl (Memᴰ.tail n)
  | inr e ↦ inr e
]

-- That one grant gives a subject a role on an object at a time.
abbrev pub GrantGives : Objects → List Grant → ℤ → Grant → Subject → Role → ObjectId → Type 0
GrantGives objects gs now g s needed o =
    (contains_object (new objects gs now) o ≡ true)
    × Lasts g.until now
    × Memᴰ g.principal s.sids
    × (rank needed ≤ rank g.role)
    × Above (new objects gs now) o g.object

module _ (objects : Objects) (gs : List Grant) (g : Grant) (now : ℤ) (s : Subject) (needed : Role)
    (o : ObjectId) where
  given_before :
      authorize (new objects (gs ++ g ∷ []) now) s needed o ≡ true
      → (authorize (new objects gs now) s needed o ≡ true) ⊎ GrantGives objects gs now g s needed o
  given_before h =
      let (there, why) = (authorize-new_iff objects (gs ++ g ∷ []) now s needed o).0 h in
      let here : contains_object (new objects gs now) o ≡ true =
        rw (contains_object-new objects gs (gs ++ g ∷ []) now now o) there in
      elim why [
        | inl admin ↦ inl ((authorize-new_iff objects gs now s needed o).1 (here, inl admin))
        | inr a ↦
            let above = Above-new objects (gs ++ g ∷ []) gs now now a.above in
            elim (Memᴰ-split a.grant g gs a.listed) [
              | inl m ↦ inl (
                  (authorize-new_iff objects gs now s needed o).1 (
                    here,
                    inr (record {
                      grant = a.grant;
                      listed = m;
                      lasts = a.lasts;
                      above = above;
                      names = a.names;
                      enough = a.enough;
                    }),
                  ))
              | inr e ↦ inr (
                here,
                subst (λ x. Lasts x.until now) e a.lasts,
                subst (λ x. Memᴰ x.principal s.sids) e a.names,
                subst (λ x. rank needed ≤ rank x.role) e a.enough,
                subst (λ x. Above (new objects gs now) o x.object) e above,
              )
            ]
      ]

  given_after :
      (authorize (new objects gs now) s needed o ≡ true) ⊎ GrantGives objects gs now g s needed o
      → authorize (new objects (gs ++ g ∷ []) now) s needed o ≡ true
  given_after (inl h) =
      let (there, why) = (authorize-new_iff objects gs now s needed o).0 h in
      (authorize-new_iff objects (gs ++ g ∷ []) now s needed o).1 (
        rw (contains_object-new objects (gs ++ g ∷ []) gs now now o) there,
        elim why [
          | inl admin ↦ inl admin
          | inr a ↦ inr (record {
            grant = a.grant;
            listed = Memᴰ-left a.grant g gs a.listed;
            lasts = a.lasts;
            above = Above-new objects gs (gs ++ g ∷ []) now now a.above;
            names = a.names;
            enough = a.enough;
          })
        ],
      )
  given_after (inr (there, lasts, names, enough, above)) =
      (authorize-new_iff objects (gs ++ g ∷ []) now s needed o).1 (
        rw (contains_object-new objects (gs ++ g ∷ []) gs now now o) there,
        inr (record {
          grant = g;
          listed = Memᴰ-last g gs;
          lasts = lasts;
          above = Above-new objects gs (gs ++ g ∷ []) now now above;
          names = names;
          enough = enough;
        }),
      )

-- That a request on `target`, approved at `now`, gives a subject a role on an object at `u`.
abbrev pub Gives : Tables → ℕ → ℕ → Request → ObjectId → Subject → Role → ObjectId → Type 0
Gives t now u r target s needed o =
    (contains_object (catalog_at t u) o ≡ true)
    × (u < now + r.minutes * 60)
    × Memᴰ r.requester_sid s.sids
    × (rank needed ≤ rank r.role)
    × Above (catalog_at t u) o target

-- After a request on an object is approved, a subject is authorized for a role on an object at a time
-- exactly if it was before, or the minutes asked for have not passed, the subject has the requester's
-- principal, the role is the one asked for or a lower one, and the object exists and is the one asked
-- for or inside it.
pub authorize-decide_iff :
    (t after : Tables) (asker : Asker) (now u : ℕ) (id out : Uuid) (r : Request) (target : ObjectId)
    (s : Subject) (needed : Role) (o : ObjectId)
    → decide t asker now id Decision.approve ≡ (after, Result.ok out)
    → find (has_id id) t.requests ≡ some r
    → target_of r ≡ some target
    → (authorize (catalog_at after u) s needed o ≡ true)
      ↔ ((authorize (catalog_at t u) s needed o ≡ true) ⊎ Gives t now u r target s needed o)
authorize-decide_iff t after asker now u id out r target s needed o h found aimed =
    rw (approve-tables t after asker now id out r target h found aimed) (to, from)
  where
    to :
        authorize (new t.objects (t.grants ++ grant_of target now r ∷ []) (pos u)) s needed o ≡ true
        → (authorize (catalog_at t u) s needed o ≡ true) ⊎ Gives t now u r target s needed o
    to a = elim (given_before t.objects t.grants (grant_of target now r) (pos u) s needed o a) [
      | inl before ↦ inl before
      | inr (there, lasts, names, enough, above) ↦ inr (there, omega arith, names, enough, above)
    ]

    from :
        (authorize (catalog_at t u) s needed o ≡ true) ⊎ Gives t now u r target s needed o
        → authorize (new t.objects (t.grants ++ grant_of target now r ∷ []) (pos u)) s needed o
          ≡ true
    from (inl before) =
        given_after t.objects t.grants (grant_of target now r) (pos u) s needed o (inl before)
    from (inr (there, early, names, enough, above)) =
        given_after t.objects t.grants (grant_of target now r) (pos u) s needed o
          (inr (there, omega arith, names, enough, above))
