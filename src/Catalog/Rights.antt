-- ===== src/Catalog/Rights.antt =====
-- What a subject may do, in crates/model/src/lib.rs, as the list of grants decides it: over the
-- catalog that `new` makes at a time, down the tree, and over time.
use remotehub.Base.{
  String, true, false, Option, none, some, List, arith, ◌≡◌, ◌∙◌, eq_of_==, find-eq-some, refl,
  subst, ◌∙◌, eq_of_==, find-eq-some, ◌⊎◌, inl, inr, ◌↔◌, ◌≤◌, sym, Memᴰ, string_eq,
}
use remotehub.Base.Int.{ℤ, ◌≤ℤ◌}
use remotehub.Catalog.Defs.{
  Role, list, connect, reveal, edit, manage, rank, as_str, parse_role, all_roles, ObjectId, Subject,
  Grant, Objects, Catalog, new, container, contains_object,
}
use remotehub.Catalog.Roles.{authorize, may_request}
use remotehub.Catalog.Path.{Above, here, up}
use remotehub.Catalog.Grants.{Lasts, entries_at-new_iff}
use remotehub.Catalog.Authorize.{Given, authorize_iff}

-- A grant of the list gives a subject the role that is needed: it lasts, lies on the object or above
-- it, names a SID of the subject, and its role is at least that.
pub record Allows (objects : Objects) (grants : List Grant) (now : ℤ) (s : Subject) (needed : Role)
    (o : ObjectId) : Type 0 where
  pub grant : Grant
  pub listed : Memᴰ grant grants
  pub lasts : Lasts grant.until now
  pub above : Above (new objects grants now) o grant.object
  pub names : Memᴰ grant.principal s.sids
  pub enough : rank needed ≤ rank grant.role

Allows-of_Given :
    (objects : Objects) (grants : List Grant) (now : ℤ) (s : Subject) (needed : Role) (o : ObjectId)
    → Given (new objects grants now) s needed o
    → Allows objects grants now s needed o
Allows-of_Given objects grants now s needed o g =
    let a = (entries_at-new_iff objects grants now g.on g.principal g.role).0 g.entry in
    record {
      grant = a.grant;
      listed = a.listed;
      lasts = a.lasts;
      above = subst (λ z. Above (new objects grants now) o z) (sym a.object) g.above;
      names = subst (λ z. Memᴰ z s.sids) (sym a.principal_is) g.names;
      enough = subst (λ z. rank needed ≤ rank z) (sym a.role_is) g.enough;
    }

Given-of_Allows :
    (objects : Objects) (grants : List Grant) (now : ℤ) (s : Subject) (needed : Role) (o : ObjectId)
    → Allows objects grants now s needed o
    → Given (new objects grants now) s needed o
Given-of_Allows objects grants now s needed o a = record {
  on = a.grant.object;
  above = a.above;
  principal = a.grant.principal;
  role = a.grant.role;
  entry =
      (entries_at-new_iff objects grants now a.grant.object a.grant.principal a.grant.role).1
        (record {
          grant = a.grant;
          listed = a.listed;
          lasts = a.lasts;
          object = refl;
          principal_is = refl;
          role_is = refl;
        });
  names = a.names;
  enough = a.enough;
}

-- In the catalog made of the objects and the grants at a time, a subject is authorized for a role on
-- an object exactly if the object exists and the subject is an administrator, or a grant of the list
-- that still lasts, on the object or above it, names a SID of the subject with that role or a higher.
pub authorize-new_iff :
    (objects : Objects) (grants : List Grant) (now : ℤ) (s : Subject) (needed : Role) (o : ObjectId)
    → (authorize (new objects grants now) s needed o ≡ true) ↔ (
        (contains_object (new objects grants now) o ≡ true)
        × ((s.admin ≡ true) ⊎ Allows objects grants now s needed o))
authorize-new_iff objects grants now s needed o = (to, from)
  where
    cat : Catalog
    cat = new objects grants now

    to :
        authorize cat s needed o ≡ true
        → (contains_object cat o ≡ true) × ((s.admin ≡ true) ⊎ Allows objects grants now s needed o)
    to h =
        let (there, why) = (authorize_iff cat s needed o).0 h in
        (
          there,
          elim why [
            | inl admin ↦ inl admin
            | inr g ↦ inr (Allows-of_Given objects grants now s needed o g)
          ],
        )

    from :
        (contains_object cat o ≡ true) × ((s.admin ≡ true) ⊎ Allows objects grants now s needed o)
        → authorize cat s needed o ≡ true
    from (there, inl admin) = (authorize_iff cat s needed o).1 (there, inl admin)
    from (there, inr a) =
        (authorize_iff cat s needed o).1
          (there, inr (Given-of_Allows objects grants now s needed o a))

-- A role on a folder or collection holds for what it contains: who is authorized for a role on the
-- container of an object that exists is authorized for it on the object.
pub authorize-container :
    (cat : Catalog) (s : Subject) (needed : Role) (o c : ObjectId)
    → contains_object cat o ≡ true
    → container cat o ≡ some c
    → authorize cat s needed c ≡ true
    → authorize cat s needed o ≡ true
authorize-container cat s needed o c there inside h = (authorize_iff cat s needed o).1 (
  there,
  elim ((authorize_iff cat s needed c).0 h).1 [
    | inl admin ↦ inl admin
    | inr g ↦ inr (record {
      on = g.on;
      above = up inside g.above;
      principal = g.principal;
      role = g.role;
      entry = g.entry;
      names = g.names;
      enough = g.enough;
    })
  ],
)

Lasts-earlier : (until : Option ℤ) (now now' : ℤ) → now' ≤ℤ now → Lasts until now → Lasts until now'
Lasts-earlier none now now' h l = tt
Lasts-earlier (some t) now now' h l = omega arith

container-new :
    (objects : Objects) (gs gs' : List Grant) (now now' : ℤ) (o : ObjectId)
    → container (new objects gs now) o ≡ container (new objects gs' now') o
unfolding container new
container-new objects gs gs' now now' (ObjectId.folder id) = refl
container-new objects gs gs' now now' _ = refl

pub contains_object-new :
    (objects : Objects) (gs gs' : List Grant) (now now' : ℤ) (o : ObjectId)
    → contains_object (new objects gs now) o ≡ contains_object (new objects gs' now') o
unfolding contains_object new
contains_object-new objects gs gs' now now' (ObjectId.folder id) = refl
contains_object-new objects gs gs' now now' _ = refl

pub Above-new :
    (objects : Objects) (gs gs' : List Grant) (now now' : ℤ) {o a : ObjectId}
    → Above (new objects gs now) o a
    → Above (new objects gs' now') o a
Above-new objects gs gs' now now' here = here
Above-new objects gs gs' now now' (up {o = x} e h) =
    up (rw (container-new objects gs gs' now now' x) at e) (Above-new objects gs gs' now now' h)

-- Grants only ever allow, and time only takes away: with more SIDS, more grants and an earlier time,
-- over the same objects, a subject that was authorized for a role, or a higher one, still is.
pub authorize_mono :
    (objects : Objects) (gs gs' : List Grant) (now now' : ℤ) (s s' : Subject) (r r' : Role)
    (o : ObjectId)
    → ((g : Grant) → Memᴰ g gs → Memᴰ g gs')
    → now' ≤ℤ now
    → ((sid : String) → Memᴰ sid s.sids → Memᴰ sid s'.sids)
    → s'.admin ≡ s.admin
    → rank r' ≤ rank r
    → authorize (new objects gs now) s r o ≡ true
    → authorize (new objects gs' now') s' r' o ≡ true
authorize_mono objects gs gs' now now' s s' r r' o more earlier sids admin lower h =
    let (there, why) = (authorize-new_iff objects gs now s r o).0 h in
    (authorize-new_iff objects gs' now' s' r' o).1 (
      rw (contains_object-new objects gs' gs now' now o) there,
      elim why [
        | inl is_admin ↦ inl (admin ∙ is_admin)
        | inr a ↦ inr (record {
          grant = a.grant;
          listed = more a.grant a.listed;
          lasts = Lasts-earlier a.grant.until now now' earlier a.lasts;
          above = Above-new objects gs gs' now now' a.above;
          names = sids a.grant.principal a.names;
          enough = omega (arith, a.enough);
        })
      ],
    )

-- A subject may ask for a role for a while exactly if the role is `connect` or `reveal`, and the
-- subject sees the object but is not authorized for that role.
pub may_request_iff :
    (cat : Catalog) (s : Subject) (role : Role) (o : ObjectId)
    → (may_request cat s role o ≡ true) ↔ (
        ((role ≡ connect) ⊎ (role ≡ reveal))
        × (authorize cat s list o ≡ true)
        × (authorize cat s role o ≡ false))
unfolding may_request authorize
may_request_iff cat s role o = ground arith

parse_role-as_str : (r : Role) → parse_role (as_str r) ≡ some r
unfolding parse_role
parse_role-as_str list = refl
parse_role-as_str connect = refl
parse_role-as_str reveal = refl
parse_role-as_str edit = refl
parse_role-as_str manage = refl

-- A text is read as a role exactly if it is the text that the role is written as.
pub parse_role_iff : (value : String) (r : Role) → (parse_role value ≡ some r) ↔ (as_str r ≡ value)
unfolding parse_role
parse_role_iff value r = (
  λ h. eq_of_== (find-eq-some (λ x. string_eq.test (as_str x) value) all_roles h),
  λ e. subst (λ v. parse_role v ≡ some r) e (parse_role-as_str r),
)
