-- ===== src/Catalog/Grants.antt =====
-- `Catalog::new` of crates/model/src/lib.rs: the grants of an object are those that name it and have
-- not run out.
use mathlib.Core.List.Memᴰ
use mathlib.Core.List.{append_assoc, append-nil}
use remotehub.Base.{
  String, false, Option, none, some, List, [], ◌∷◌, ◌++◌, arith, ◌≡◌, refl, ap, sym, subst, ◌↔◌,
  inl, inr, if◌then◌else◌, ◌==◌, Memᴰ, Bool-cases, eq_of_==, ==_refl,
}
use remotehub.Base.Int.{ℤ, ◌<ℤ◌}
use remotehub.Base.Map.{HashMap, get, get-insert}
use remotehub.Catalog.Defs.{
  Role, ObjectId, object_eq, Grant, Objects, or_default, ran_out, add_grant, group_grants, new,
}
use remotehub.Catalog.Roles.{entries_at}

-- A grant counts at `now`: it is permanent, or ends later.
abbrev pub Lasts : Option ℤ → ℤ → Type 0
Lasts none now = Unit
Lasts (some t) now = now <ℤ t

Lasts-of_ran_out : (until : Option ℤ) (now : ℤ) → ran_out until now ≡ false → Lasts until now
Lasts-of_ran_out none now h = tt
Lasts-of_ran_out (some t) now h = ground arith

ran_out_of_Lasts : (until : Option ℤ) (now : ℤ) → Lasts until now → ran_out until now ≡ false
ran_out_of_Lasts none now h = refl
ran_out_of_Lasts (some t) now h = ground arith

-- The entries that a list of grants adds to an object.
pub added : List Grant → ℤ → ObjectId → List (String × Role)
added [] now o = []
added (g ∷ gs) now o =
    let rest = added gs now o in
    if ran_out g.until now
    then rest
    else if g.object == o
    then (g.principal, g.role) ∷ rest
    else rest

added-cons :
    (g : Grant) (gs : List Grant) (now : ℤ) (o : ObjectId)
    → added (g ∷ gs) now o ≡ added (g ∷ []) now o ++ added gs now o
unfolding added
added-cons g gs now o = ground arith

get-add_grant :
    (m : HashMap ObjectId (List (String × Role))) (g : Grant) (now : ℤ) (o : ObjectId)
    → or_default (get (add_grant m g now) o) ≡ or_default (get m o) ++ added (g ∷ []) now o
unfolding add_grant added
get-add_grant m g now o = elim (Bool-cases (ran_out g.until now)) [
  | inl out ↦ rw (out, if◌then◌else◌) (sym (append-nil _))
  | inr lasts ↦
      rw (lasts, if◌then◌else◌)
        (rw get-insert (elim (Bool-cases (g.object == o)) [
          | inl same ↦
              rw (same, if◌then◌else◌)
                (ap (λ k. or_default (get m k) ++ (g.principal, g.role) ∷ []) (eq_of_== same))
          | inr other ↦ rw (other, if◌then◌else◌) (sym (append-nil _))
        ]))
]

get-group_grants :
    (m : HashMap ObjectId (List (String × Role))) (gs : List Grant) (now : ℤ) (o : ObjectId)
    → or_default (get (group_grants m gs now) o) ≡ or_default (get m o) ++ added gs now o
unfolding group_grants
get-group_grants m [] now o = unfold added in sym (append-nil _)
get-group_grants m (g ∷ gs) now o =
    rw
      (
        get-group_grants (add_grant m g now) gs now o,
        get-add_grant,
        added-cons g gs now o,
        append_assoc,
      )
      refl

pub entries_at-new :
    (objects : Objects) (gs : List Grant) (now : ℤ) (o : ObjectId)
    → entries_at (new objects gs now) o ≡ added gs now o
unfolding new get
entries_at-new objects gs now o = get-group_grants [] gs now o

-- A grant of the list that names an object, lasts, and names a principal and a role.
pub record Adds (gs : List Grant) (now : ℤ) (o : ObjectId) (principal : String) (role : Role)
    : Type 0 where
  pub grant : Grant
  pub listed : Memᴰ grant gs
  pub lasts : Lasts grant.until now
  pub object : grant.object ≡ o
  pub principal_is : grant.principal ≡ principal
  pub role_is : grant.role ≡ role

Adds-tail :
    {g : Grant} {gs : List Grant} {now : ℤ} {o : ObjectId} {p : String} {r : Role}
    → Adds gs now o p r
    → Adds (g ∷ gs) now o p r
Adds-tail a = record {
  grant = a.grant;
  listed = Memᴰ.tail a.listed;
  lasts = a.lasts;
  object = a.object;
  principal_is = a.principal_is;
  role_is = a.role_is;
}

added-Adds :
    (gs : List Grant) (now : ℤ) (o : ObjectId) {p : String} {r : Role}
    → Memᴰ (p, r) (added gs now o)
    → Adds gs now o p r
unfolding added
added-Adds [] now o m = absurd (Memᴰ.not-nil m)
added-Adds (g ∷ gs) now o m = elim (Bool-cases (ran_out g.until now)) [
  | inl out ↦ Adds-tail (added-Adds gs now o (rw (out, if◌then◌else◌) at m))
  | inr lasts ↦ elim (Bool-cases (g.object == o)) [
    | inl same ↦ elim (Memᴰ.cases_cons (rw (lasts, same, if◌then◌else◌) at m)) [
      | inl e ↦ record {
        grant = g;
        listed = Memᴰ.head refl;
        lasts = Lasts-of_ran_out g.until now lasts;
        object = eq_of_== same;
        principal_is = sym (ap (λ z. z.0) e);
        role_is = sym (ap (λ z. z.1) e);
      }
      | inr t ↦ Adds-tail (added-Adds gs now o t)
    ]
    | inr other ↦ Adds-tail (added-Adds gs now o (rw (lasts, other, if◌then◌else◌) at m))
  ]
]

Adds-head :
    (g : Grant) (gs : List Grant) (now : ℤ) (o : ObjectId)
    → Lasts g.until now
    → g.object ≡ o
    → Memᴰ (g.principal, g.role) (added (g ∷ gs) now o)
unfolding added
Adds-head g gs now o l e =
    rw (ran_out_of_Lasts g.until now l, e, ==_refl o, if◌then◌else◌) (Memᴰ.head refl)

added-Memᴰ :
    (g : Grant) (gs : List Grant) (now : ℤ) (o : ObjectId)
    → Memᴰ g gs
    → Lasts g.until now
    → g.object ≡ o
    → Memᴰ (g.principal, g.role) (added gs now o)
added-Memᴰ g [] now o m l e = absurd (Memᴰ.not-nil m)
added-Memᴰ g (x ∷ gs) now o (Memᴰ.head same) l e =
    subst (λ z. Memᴰ (g.principal, g.role) (added (z ∷ gs) now o)) same (Adds-head g gs now o l e)
added-Memᴰ g (x ∷ gs) now o (Memᴰ.tail m) l e =
    rw added-cons (Memᴰ.append_right (added (x ∷ []) now o) (added-Memᴰ g gs now o m l e))

-- The entries of an object in the catalog made at `now` are the principal and the role of each
-- grant of the list that names the object and still lasts, and no others.
pub entries_at-new_iff :
    (objects : Objects) (gs : List Grant) (now : ℤ) (o : ObjectId) (p : String) (r : Role)
    → Memᴰ (p, r) (entries_at (new objects gs now) o) ↔ Adds gs now o p r
entries_at-new_iff objects gs now o p r = (
  λ m. added-Adds gs now o (subst (λ l. Memᴰ (p, r) l) (entries_at-new objects gs now o) m),
  λ a. subst (λ l. Memᴰ (p, r) l) (sym (entries_at-new objects gs now o)) (back a),
)
  where
    back : Adds gs now o p r → Memᴰ (p, r) (added gs now o)
    back a =
        rw (← a.principal_is, ← a.role_is) (added-Memᴰ a.grant gs now o a.listed a.lasts a.object)
