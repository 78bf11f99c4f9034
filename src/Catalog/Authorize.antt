-- ===== src/Catalog/Authorize.antt =====
-- `effective_role`, `authorize` and what is made of them, in crates/model/src/lib.rs: which grants
-- give a role, and how a role changes with the object, the grants and the time.
use remotehub.Base.{
  String, Bool, true, List, [], ◌∷◌, ◌++◌, map, arith, ◌≡◌, refl, ap, ◌⊎◌, inl, inr, ◌↔◌, ◌≤◌, ◌&&◌,
  ◌||◌, leb, leb→le, le→leb, Memᴰ, contains-Memᴰ, Memᴰ-contains, filter, any, any-Memᴰ, any_of_Memᴰ,
  &&-eq-true, ||-eq-true, string_eq,
}
use remotehub.Catalog.Defs.{
  Role, list, manage, rank, ObjectId, object_eq, Subject, Catalog, contains_object, path,
}
use remotehub.Catalog.Roles.{
  entries_at, names_one_of, highest, flat_map, effective_role, at_least, authorize,
}
use remotehub.Catalog.Path.{Above, contains-path}

at_least-highest :
    (needed : Role) (rs : List Role)
    → at_least needed (highest rs) ≡ any (λ r. leb (rank needed) (rank r)) rs
unfolding highest
at_least-highest needed [] = refl
at_least-highest needed (r ∷ rs) = ground (arith, at_least-highest needed rs)

any-map {ℓ κ} :
    {A : Type ℓ} {B : Type κ} (p : B → Bool) (f : A → B) (xs : List A)
    → any p (map f xs) ≡ any (λ x. p (f x)) xs
any-map p f [] = refl
any-map p f (x ∷ xs) = ap (λ b. p (f x) || b) (any-map p f xs)

any-filter {ℓ} :
    {A : Type ℓ} (p q : A → Bool) (xs : List A) → any p (filter q xs) ≡ any (λ x. q x && p x) xs
any-filter p q [] = refl
any-filter p q (x ∷ xs) = ground (arith, any-filter p q xs)

any-append {ℓ} :
    {A : Type ℓ} (p : A → Bool) (xs ys : List A) → any p (xs ++ ys) ≡ (any p xs || any p ys)
any-append p [] ys = refl
any-append p (x ∷ xs) ys = ground (arith, any-append p xs ys)

any-flat_map {ℓ κ} :
    {A : Type ℓ} {B : Type κ} (p : B → Bool) (f : A → List B) (xs : List A)
    → any p (flat_map f xs) ≡ any (λ x. any p (f x)) xs
any-flat_map p f [] = refl
any-flat_map p f (x ∷ xs) =
    rw (any-append p (f x) (flat_map f xs)) (ap (λ b. any p (f x) || b) (any-flat_map p f xs))

-- An entry that gives the subject the role that is needed, or more.
abbrev gives : Subject → Role → String × Role → Bool
gives s needed g = names_one_of s.sids g && leb (rank needed) (rank g.1)

rank-le-manage : (r : Role) → leb (rank r) (rank manage) ≡ true
rank-le-manage list = refl
rank-le-manage _ = refl

at_least-granted :
    (cat : Catalog) (s : Subject) (needed : Role) (os : List ObjectId)
    → at_least needed
        (highest (map (λ g. g.1) (filter (names_one_of s.sids) (flat_map (entries_at cat) os))))
      ≡ any (λ a. any (gives s needed) (entries_at cat a)) os
at_least-granted cat s needed os = rw (at_least-highest, any-map, any-filter, any-flat_map) refl

authorize-eq :
    (cat : Catalog) (s : Subject) (needed : Role) (o : ObjectId)
    → authorize cat s needed o ≡ (
        contains_object cat o
        && (s.admin || any (λ a. any (gives s needed) (entries_at cat a)) (path cat o)))
unfolding authorize effective_role
authorize-eq cat s needed o =
    ground (arith, at_least-granted cat s needed (path cat o), rank-le-manage needed)

-- What gives a subject the role that is needed on an object: an entry with a SID of the subject and
-- at least that role, on the object or above it.
pub record Given (cat : Catalog) (s : Subject) (needed : Role) (o : ObjectId) : Type 0 where
  pub on : ObjectId
  pub above : Above cat o on
  pub principal : String
  pub role : Role
  pub entry : Memᴰ (principal, role) (entries_at cat on)
  pub names : Memᴰ principal s.sids
  pub enough : rank needed ≤ rank role

any-Given :
    (cat : Catalog) (s : Subject) (needed : Role) (o : ObjectId)
    → any (λ a. any (gives s needed) (entries_at cat a)) (path cat o) ≡ true
    → Given cat s needed o
any-Given cat s needed o h =
    let (a, on_path, given) =
      any-Memᴰ (λ a. any (gives s needed) (entries_at cat a)) (path cat o) h in
    let (g, entry, fits) = any-Memᴰ (gives s needed) (entries_at cat a) given in
    let (named, enough) = &&-eq-true _ _ fits in
    record {
      on = a;
      above = (contains-path cat o a).0 (Memᴰ-contains a (path cat o) on_path);
      principal = g.0;
      role = g.1;
      entry = entry;
      names = contains-Memᴰ g.0 s.sids named;
      enough = leb→le _ _ enough;
    }

Given-any :
    (cat : Catalog) (s : Subject) (needed : Role) (o : ObjectId)
    → Given cat s needed o
    → any (λ a. any (gives s needed) (entries_at cat a)) (path cat o) ≡ true
Given-any cat s needed o g =
    any_of_Memᴰ _ (path cat o)
      (contains-Memᴰ g.on (path cat o) ((contains-path cat o g.on).1 g.above))
      (any_of_Memᴰ (gives s needed) (entries_at cat g.on) g.entry
        (rw (Memᴰ-contains g.principal s.sids g.names, le→leb _ _ g.enough) refl))

-- A subject holds at least a role on an object exactly if the object exists and the subject is an
-- administrator, or an entry on the object or above it names a SID of the subject with such a role.
pub authorize_iff :
    (cat : Catalog) (s : Subject) (needed : Role) (o : ObjectId)
    → (authorize cat s needed o ≡ true)
      ↔ ((contains_object cat o ≡ true) × ((s.admin ≡ true) ⊎ Given cat s needed o))
authorize_iff cat s needed o = (to, from)
  where
    to :
        authorize cat s needed o ≡ true
        → (contains_object cat o ≡ true) × ((s.admin ≡ true) ⊎ Given cat s needed o)
    to h =
        let (there, why) = &&-eq-true _ _ (rw authorize-eq at h) in
        (
          there,
          elim (||-eq-true _ _ why) [
            | inl admin ↦ inl admin
            | inr given ↦ inr (any-Given cat s needed o given)
          ],
        )

    from :
        (contains_object cat o ≡ true) × ((s.admin ≡ true) ⊎ Given cat s needed o)
        → authorize cat s needed o ≡ true
    from (there, inl admin) = rw (authorize-eq, there, admin) refl
    from (there, inr given) =
        rw (authorize-eq, there) (ground (arith, Given-any cat s needed o given))
