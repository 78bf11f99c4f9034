-- ===== src/Catalog/Listed.antt =====
-- `visible` of crates/model/src/lib.rs, its first half: the objects of the catalog are gone through,
-- and each that gives the subject a role is entered with it.
use remotehub.Base.{
  or_else, Bool, false, Option, none, some, List, [], ◌∷◌, map, arith, ◌≡◌, refl, subst, inl, inr,
  ◌∙◌, if◌then◌else◌, ◌==◌, Bool-cases, Option-cases, contains, contains-append, nat_eq, eq_of_==,
}
use remotehub.Base.Map.{HashMap, get, insert, collect_onto, get-insert}
use remotehub.Catalog.Defs.{
  Role, Uuid, ObjectId, folder, device, credential, collection, profile, object_eq, same_object,
  Subject, Catalog, contains_object,
}
use remotehub.Catalog.Roles.{effective_role, flat_map, all_objects, with_role, visible_roles}

abbrev is_in : List Uuid → Option Uuid → Bool
is_in ids none = false
is_in ids (some id) = contains ids id

abbrev is_this : Uuid → Option Uuid → Bool
is_this i none = false
is_this i (some id) = i == id

contains-map :
    (con : Uuid → ObjectId) (pick : ObjectId → Option Uuid)
    → ((i : Uuid) (o : ObjectId) → same_object (con i) o ≡ is_this i (pick o))
    → (ids : List Uuid) (o : ObjectId) → contains (map con ids) o ≡ is_in ids (pick o)
contains-map con pick h [] o = ground arith
contains-map con pick h (i ∷ ids) o = ground (arith, h i o, contains-map con pick h ids o)

abbrev folder_id : ObjectId → Option Uuid
folder_id (folder id) = some id
folder_id _ = none

abbrev device_id : ObjectId → Option Uuid
device_id (device id) = some id
device_id _ = none

abbrev credential_id : ObjectId → Option Uuid
credential_id (credential id) = some id
credential_id _ = none

abbrev collection_id : ObjectId → Option Uuid
collection_id (collection id) = some id
collection_id _ = none

abbrev profile_id : ObjectId → Option Uuid
profile_id (profile id) = some id
profile_id _ = none

contains-all_objects :
    (cat : Catalog) (o : ObjectId) → contains (all_objects cat) o ≡ contains_object cat o
unfolding contains_object
contains-all_objects cat o =
    simp
      (
        contains-append,
        contains-map folder folder_id (λ i x. ground arith),
        contains-map collection collection_id (λ i x. ground arith),
        contains-map device device_id (λ i x. ground arith),
        contains-map credential credential_id (λ i x. ground arith),
        contains-map profile profile_id (λ i x. ground arith),
      )
      (ground arith)

get-collect_roles :
    (f : ObjectId → Option Role) (m : HashMap ObjectId Role) (os : List ObjectId) (o : ObjectId)
    → get (collect_onto m (flat_map (λ x. with_role x (f x)) os)) o
      ≡ (if contains os o then or_else (f o) (get m o) else get m o)
get-collect_roles f m [] o = refl
get-collect_roles f m (x ∷ os) o = elim (Option-cases (f x)) [
  | inl e ↦
      rw (e, with_role)
        (elim (Bool-cases (x == o)) [
          | inl same ↦ rw (same) (
              let e' : f o ≡ none = subst (λ z. f z ≡ none) (eq_of_== same) e in
              ground (arith, get-collect_roles f m os o))
          | inr other ↦ rw other (get-collect_roles f m os o)
        ])
  | inr (r, e) ↦
      rw (e, with_role)
        (rw (get-collect_roles f (insert m x r) os o, get-insert)
          (elim (Bool-cases (x == o)) [
            | inl same ↦
                let e' : f o ≡ some r = subst (λ z. f z ≡ some r) (eq_of_== same) e in
                rw same (ground arith)
            | inr other ↦ rw other refl
          ]))
]

effective_role_missing :
    (cat : Catalog) (s : Subject) (o : ObjectId)
    → contains_object cat o ≡ false
    → effective_role cat s o ≡ none
unfolding effective_role
effective_role_missing cat s o h = rw h refl

pub get-visible_roles :
    (cat : Catalog) (s : Subject) (o : ObjectId)
    → get (visible_roles cat s) o ≡ effective_role cat s o
unfolding visible_roles get
get-visible_roles cat s o =
    get-collect_roles (effective_role cat s) [] (all_objects cat) o
    ∙ (rw (contains-all_objects cat o) (elim (Bool-cases (contains_object cat o)) [
      | inl y ↦ rw y (ground arith)
      | inr n ↦ rw (n, effective_role_missing cat s o n) refl
    ]))
