-- ===== src/Catalog/Defs.antt =====
-- crates/model/src/lib.rs: roles, objects, subjects, grants, and the catalog that is loaded once for
-- a request. A `Uuid` is a number of 128 bits that is only compared; a `HashMap` is a list of entries
-- and a `HashSet` a list of elements, in one of the orders that the source leaves open.
use remotehub.Base.{
  ℕ, zero, suc, ◌+◌, String, Bool, true, false, Option, none, some, List, [], ◌∷◌, ◌++◌, arith, ◌≡◌,
  ◌↔◌, if◌then◌else◌, length, find, HasEq, ◌==◌, contains, nat_eq, string_eq,
}
use remotehub.Base.Int.{ℤ, leb_ℤ}
use remotehub.Base.Map.{HashMap, get, insert, keys, contains_key, collect}

pub data Role : Type 0 where
  list connect reveal edit manage : Role

-- `Role::ALL`
abbrev pub all_roles : List Role
all_roles = list ∷ connect ∷ reveal ∷ edit ∷ manage ∷ []

unfoldable pub as_str : Role → String
as_str list = "list"
as_str connect = "connect"
as_str reveal = "reveal"
as_str edit = "edit"
as_str manage = "manage"

unfoldable pub parse_role : String → Option Role
unfolding as_str
parse_role value = find (λ r. as_str r == value) all_roles

-- The derived order: the place of a constructor in the declaration.
abbrev pub rank : Role → ℕ
rank list = 0
rank connect = 1
rank reveal = 2
rank edit = 3
rank manage = 4

abbrev pub Uuid : Type 0
Uuid = ℕ

pub data ObjectId : Type 0 where
  folder : Uuid → ObjectId
  device : Uuid → ObjectId
  credential : Uuid → ObjectId
  collection : Uuid → ObjectId
  profile : Uuid → ObjectId

abbrev pub same_object : ObjectId → ObjectId → Bool
same_object (folder a) (folder b) = a == b
same_object (device a) (device b) = a == b
same_object (credential a) (credential b) = a == b
same_object (collection a) (collection b) = a == b
same_object (profile a) (profile b) = a == b
same_object _ _ = false

pub same_object_iff : (a b : ObjectId) → (same_object a b ≡ true) ↔ (a ≡ b)
same_object_iff a b = ground arith

instance abbrev pub object_eq : HasEq ObjectId
object_eq = record { test = same_object; test_iff = same_object_iff }

pub record Subject : Type 0 where
  pub sids : List String
  pub admin : Bool

pub record Grant : Type 0 where
  pub object : ObjectId
  pub principal : String
  pub role : Role
  pub until : Option ℤ

pub record Catalog : Type 0 where
  pub folder_parent : HashMap Uuid (Option Uuid)
  pub collection_parent : HashMap Uuid (Option Uuid)
  pub device_folder : HashMap Uuid Uuid
  pub credential_collection : HashMap Uuid Uuid
  pub profile_folder : HashMap Uuid (Option Uuid)
  pub grants : HashMap ObjectId (List (String × Role))

pub record Objects : Type 0 where
  pub folders : List (Uuid × Option Uuid)
  pub collections : List (Uuid × Option Uuid)
  pub devices : List (Uuid × Uuid)
  pub credentials : List (Uuid × Uuid)
  pub profiles : List (Uuid × Option Uuid)

-- `until.is_some_and(|until| until <= now)`
abbrev pub ran_out : Option ℤ → ℤ → Bool
ran_out none now = false
ran_out (some t) now = leb_ℤ t now

abbrev pub or_default {ℓ} : {A : Type ℓ} → Option (List A) → List A
or_default none = []
or_default (some l) = l

-- One round of the loop of `Catalog::new`: `entry(..).or_default().push(..)`.
unfoldable pub add_grant :
    HashMap ObjectId (List (String × Role)) → Grant → ℤ → HashMap ObjectId (List (String × Role))
add_grant by_object g now =
    if ran_out g.until now
    then by_object
    else insert by_object g.object
        (or_default (get by_object g.object) ++ (g.principal, g.role) ∷ [])

unfoldable pub group_grants :
    HashMap ObjectId (List (String × Role))
    → List Grant
    → ℤ
    → HashMap ObjectId (List (String × Role))
group_grants by_object [] now = by_object
group_grants by_object (g ∷ gs) now = group_grants (add_grant by_object g now) gs now

unfoldable pub new : Objects → List Grant → ℤ → Catalog
new objects grants now = record {
  folder_parent = collect objects.folders;
  collection_parent = collect objects.collections;
  device_folder = collect objects.devices;
  credential_collection = collect objects.credentials;
  profile_folder = collect objects.profiles;
  grants = group_grants [] grants now;
}

unfoldable pub contains_object : Catalog → ObjectId → Bool
contains_object cat (folder id) = contains_key cat.folder_parent id
contains_object cat (collection id) = contains_key cat.collection_parent id
contains_object cat (device id) = contains_key cat.device_folder id
contains_object cat (credential id) = contains_key cat.credential_collection id
contains_object cat (profile id) = contains_key cat.profile_folder id

abbrev pub flatten_opt {ℓ} : {A : Type ℓ} → Option (Option A) → Option A
flatten_opt none = none
flatten_opt (some o) = o

abbrev pub map_opt {ℓ κ} : {A : Type ℓ} {B : Type κ} → (A → B) → Option A → Option B
map_opt f none = none
map_opt f (some a) = some (f a)

unfoldable pub container : Catalog → ObjectId → Option ObjectId
container cat (folder id) = map_opt folder (flatten_opt (get cat.folder_parent id))
container cat (collection id) = map_opt collection (flatten_opt (get cat.collection_parent id))
container cat (device id) = map_opt folder (get cat.device_folder id)
container cat (credential id) = map_opt collection (get cat.credential_collection id)
container cat (profile id) = map_opt folder (flatten_opt (get cat.profile_folder id))

abbrev pub id_of : ObjectId → Uuid
id_of (folder id) = id
id_of (collection id) = id
id_of (device id) = id
id_of (credential id) = id
id_of (profile id) = id

unfoldable pub parent : Catalog → ObjectId → Option Uuid
unfolding container
parent cat object = map_opt id_of (container cat object)

-- The loop of `path`: what it pushes, from the container that comes next. A round needs one unit of
-- fuel.
unfoldable pub climb : Catalog → ℕ → List ObjectId → Option ObjectId → List ObjectId
climb cat zero seen next = []
climb cat (suc fuel) seen none = []
climb cat (suc fuel) seen (some c) =
    let rest = c ∷ climb cat fuel (c ∷ seen) (container cat c) in
    if contains seen c then [] else rest

-- Every container but the last that is seen has an entry, so there are no more rounds than this.
abbrev pub rounds : Catalog → ℕ
rounds cat = suc (suc (length (keys cat.folder_parent) + length (keys cat.collection_parent)))

unfoldable pub path : Catalog → ObjectId → List ObjectId
path cat object = object ∷ climb cat (rounds cat) [] (container cat object)

unfoldable pub is_within : Catalog → Uuid → Uuid → Bool
is_within cat f ancestor = contains (path cat (folder f)) (folder ancestor)

unfoldable pub is_within_collection : Catalog → Uuid → Uuid → Bool
is_within_collection cat c ancestor = contains (path cat (collection c)) (collection ancestor)
