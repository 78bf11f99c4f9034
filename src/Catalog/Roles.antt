-- ===== src/Catalog/Roles.antt =====
-- crates/model/src/lib.rs: who holds which role on an object, what explains it, and what is visible.
use remotehub.Base.{
  String, Bool, true, false, ◌&&◌, not, Option, none, some, List, [], ◌∷◌, ◌++◌, map, if◌then◌else◌,
  leb, ltb, filter, contains, string_eq, nat_eq,
}
use remotehub.Base.Map.{HashMap, get, keys, contains_key, collect}
use remotehub.Catalog.Defs.{
  Role, connect, reveal, manage, rank, Uuid, ObjectId, folder, device, credential, collection,
  profile, object_eq, Subject, Catalog, or_default, contains_object, path,
}

-- `Ord::max`
abbrev pub max_role : Role → Role → Role
max_role a b = if ltb (rank b) (rank a) then a else b

-- `Iterator::max`
unfoldable pub highest : List Role → Option Role
highest [] = none
highest (r ∷ rs) = elim (highest rs) [ none ↦ some r | some h ↦ some (max_role r h) ]

abbrev pub flat_map {ℓ κ} : {A : Type ℓ} {B : Type κ} → (A → List B) → List A → List B
flat_map f [] = []
flat_map f (x ∷ xs) = f x ++ flat_map f xs

-- The entries of the grants of an object, none where it has no entry.
abbrev pub entries_at : Catalog → ObjectId → List (String × Role)
entries_at cat o = or_default (get cat.grants o)

abbrev pub names_one_of : List String → String × Role → Bool
names_one_of sids (principal, role) = contains sids principal

unfoldable pub effective_role : Catalog → Subject → ObjectId → Option Role
effective_role cat subject object =
    if not (contains_object cat object)
    then none
    else if subject.admin
    then some manage
    else highest (
        map (λ g. g.1)
          (filter (names_one_of subject.sids) (flat_map (entries_at cat) (path cat object))))

unfoldable pub grants_along : Catalog → ObjectId → List (ObjectId × String × Role)
grants_along cat object =
    flat_map (λ on. map (λ g. (on, g.0, g.1)) (entries_at cat on)) (path cat object)

unfoldable pub reasons : Catalog → Subject → ObjectId → List (ObjectId × String × Role)
unfolding grants_along
reasons cat subject object = filter (λ g. contains subject.sids g.1) (grants_along cat object)

-- `is_some_and(|role| role >= needed)`
abbrev pub at_least : Role → Option Role → Bool
at_least needed none = false
at_least needed (some role) = leb (rank needed) (rank role)

unfoldable pub authorize : Catalog → Subject → Role → ObjectId → Bool
authorize cat subject needed object = at_least needed (effective_role cat subject object)

abbrev pub just_in_time : Role → Bool
just_in_time connect = true
just_in_time reveal = true
just_in_time _ = false

abbrev pub below : Role → Option Role → Bool
below role none = false
below role (some held) = ltb (rank held) (rank role)

unfoldable pub may_request : Catalog → Subject → Role → ObjectId → Bool
may_request cat subject role object =
    just_in_time role && below role (effective_role cat subject object)

unfoldable pub may_approve : Catalog → Subject → ObjectId → Bool
may_approve cat subject object = authorize cat subject manage object

unfoldable pub may_create_top_level : Subject → Bool
may_create_top_level subject = subject.admin

pub record Visibility : Type 0 where
  pub roles : HashMap ObjectId Role
  pub path_only : List Uuid
  pub collections_path_only : List Uuid

-- The chain of the keys of the five maps.
abbrev pub all_objects : Catalog → List ObjectId
all_objects cat =
    map folder (keys cat.folder_parent)
    ++ (map collection (keys cat.collection_parent)
        ++ (map device (keys cat.device_folder)
            ++ (map credential (keys cat.credential_collection)
                ++ map profile (keys cat.profile_folder))))

abbrev pub with_role : ObjectId → Option Role → List (ObjectId × Role)
with_role o none = []
with_role o (some r) = (o, r) ∷ []

unfoldable pub visible_roles : Catalog → Subject → HashMap ObjectId Role
visible_roles cat subject =
    collect (flat_map (λ o. with_role o (effective_role cat subject o)) (all_objects cat))

abbrev pub add_to_set : List Uuid → Uuid → List Uuid
add_to_set set id = if contains set id then set else id ∷ set

-- `path_only.insert(id)` or `collections_path_only.insert(id)`
abbrev pub show_way : Visibility → ObjectId → Visibility
show_way v (folder id) = record v { path_only = add_to_set v.path_only id }
show_way v (collection id) = record v {
  collections_path_only = add_to_set v.collections_path_only id;
}
show_way v (device id) = v
show_way v (credential id) = v
show_way v (profile id) = v

-- A round of the inner loop: an ancestor that is not visible itself is shown as a way.
abbrev pub mark_ancestor : Visibility → ObjectId → Visibility
mark_ancestor v a = if contains_key v.roles a then v else show_way v a

-- The inner loop, over the ancestors of one visible object.
unfoldable pub mark_ancestors : Visibility → List ObjectId → Visibility
mark_ancestors v [] = v
mark_ancestors v (a ∷ as') = mark_ancestors (mark_ancestor v a) as'

abbrev pub skip_one {ℓ} : {A : Type ℓ} → List A → List A
skip_one [] = []
skip_one (x ∷ xs) = xs

-- The outer loop, over the visible objects.
unfoldable pub mark_ways : Catalog → Visibility → List ObjectId → Visibility
mark_ways cat v [] = v
mark_ways cat v (o ∷ os) = mark_ways cat (mark_ancestors v (skip_one (path cat o))) os

unfoldable pub visible : Catalog → Subject → Visibility
visible cat subject =
    let roles = visible_roles cat subject in
    mark_ways cat (record { roles = roles; path_only = []; collections_path_only = [] })
      (keys roles)
