-- ===== src/Catalog/Path.antt =====
-- `path` of crates/model/src/lib.rs lists exactly what lies above an object, also where the entries
-- form a loop or name a folder that is not there.
use remotehub.Base.{
  subst, ℕ, zero, suc, ◌≤◌, ◌<◌, Bool, true, false, ◌||◌, Option, none, some, List, [], ◌∷◌, ◌++◌,
  map, arith, ◌≡◌, refl, sym, ap, ◌↔◌, ◌⊎◌, inl, inr, if◌then◌else◌, length, length-append,
  length-map, contains, contains-append, eq_of_==, ==_refl, Bool-cases, Option-cases, ||-eq-true,
  nat_eq, ◌==◌,
}
use remotehub.Base.Map.{get, keys, get-contains_key}
use remotehub.Catalog.Defs.{
  Uuid, ObjectId, folder, collection, object_eq, Catalog, container, climb, rounds, path,
}

-- `Above cat o a`: `a` is `o`, or contains it, directly or through other containers.
pub data Above (cat : Catalog) : ObjectId → ObjectId → Type 0 where
  here : {o : ObjectId} → Above cat o o
  up : {o c a : ObjectId} → container cat o ≡ some c → Above cat c a → Above cat o a

pub Above-trans : {cat : Catalog} {o c a : ObjectId} → Above cat o c → Above cat c a → Above cat o a
Above-trans here k = k
Above-trans (up e h) k = up e (Above-trans h k)

-- What is climbed to lies above the start.
climb-Above :
    (cat : Catalog) (fuel : ℕ) (seen : List ObjectId) (next : Option ObjectId) (a : ObjectId)
    → contains (climb cat fuel seen next) a ≡ true
    → (c : ObjectId) × (next ≡ some c) × Above cat c a
unfolding climb
climb-Above cat zero seen next a h = cc
climb-Above cat (suc fuel) seen none a h = cc
climb-Above cat (suc fuel) seen (some c) a h = elim (Bool-cases (contains seen c)) [
  | inl y ↦ absurd (cc (rw (y, if◌then◌else◌) at h))
  | inr n ↦ elim (||-eq-true (c == a) _ (rw (n, if◌then◌else◌) at h)) [
    | inl e ↦ (c, refl, subst (λ z. Above cat c z) (eq_of_== e) here)
    | inr t ↦
        let (d, e, above) = climb-Above cat fuel (c ∷ seen) (container cat c) a t in
        (c, refl, up e above)
  ]
]

-- The objects with an entry of their own among the containers.
abbrev candidates : Catalog → List ObjectId
candidates cat = map folder (keys cat.folder_parent) ++ map collection (keys cat.collection_parent)

abbrev unseen : List ObjectId → List ObjectId → ℕ
unseen seen [] = 0
unseen seen (x ∷ xs) = let rest = unseen seen xs in if contains seen x then rest else suc rest

unseen-le-length : (seen xs : List ObjectId) → unseen seen xs ≤ length xs
unseen-le-length seen [] = omega arith
unseen-le-length seen (x ∷ xs) = ground (arith, unseen-le-length seen xs)

unseen-cons-le : (c : ObjectId) (seen xs : List ObjectId) → unseen (c ∷ seen) xs ≤ unseen seen xs
unseen-cons-le c seen [] = omega arith
unseen-cons-le c seen (x ∷ xs) = ground (arith, unseen-cons-le c seen xs)

-- An object that is seen for the first time leaves fewer unseen.
unseen-cons-lt :
    (c : ObjectId) (seen xs : List ObjectId)
    → contains xs c ≡ true
    → contains seen c ≡ false
    → unseen (c ∷ seen) xs < unseen seen xs
unseen-cons-lt c seen [] m n = cc
unseen-cons-lt c seen (x ∷ xs) m n = elim (Bool-cases (x == c)) [
  | inl e ↦
      let p : x ≡ c = eq_of_== e in
      rw (p, n, ==_refl c, if◌then◌else◌) (omega (arith, unseen-cons-le c seen xs))
  | inr o ↦ ground (arith, unseen-cons-lt c seen xs, unseen-cons-le c seen xs)
]

contains-map_folder :
    (ids : List Uuid) (id : Uuid) → contains (map folder ids) (folder id) ≡ contains ids id
contains-map_folder [] id = refl
contains-map_folder (i ∷ ids) id = ap (λ b. (i == id) || b) (contains-map_folder ids id)

contains-map_collection :
    (ids : List Uuid) (id : Uuid) → contains (map collection ids) (collection id) ≡ contains ids id
contains-map_collection [] id = refl
contains-map_collection (i ∷ ids) id = ap (λ b. (i == id) || b) (contains-map_collection ids id)

abbrev is_box : ObjectId → Bool
is_box (folder id) = true
is_box (collection id) = true
is_box _ = false

container-is_box :
    (cat : Catalog) (o : ObjectId) {c : ObjectId} → container cat o ≡ some c → is_box c ≡ true
unfolding container
container-is_box cat (folder id) h = ground arith
container-is_box cat o h = ground arith

-- A container that lies in another has an entry.
box-candidate :
    (cat : Catalog) (c : ObjectId) {d : ObjectId}
    → is_box c ≡ true
    → container cat c ≡ some d
    → contains (candidates cat) c ≡ true
unfolding container
box-candidate cat (folder id) b h = elim (Option-cases (get cat.folder_parent id)) [
  | inl e ↦ absurd (cc (rw e at h))
  | inr (v, e) ↦
      rw (contains-append, contains-map_folder, get-contains_key cat.folder_parent id e) refl
]
box-candidate cat (collection id) b h = elim (Option-cases (get cat.collection_parent id)) [
  | inl e ↦ absurd (cc (rw e at h))
  | inr (v, e) ↦ ground (
    arith,
    contains-append (map folder (keys cat.folder_parent))
        (map collection (keys cat.collection_parent)) (collection id),
    contains-map_collection (keys cat.collection_parent) id,
    get-contains_key cat.collection_parent id e,
  )
]
box-candidate cat o b h = cc

climb_head :
    (cat : Catalog) (fuel : ℕ) (seen : List ObjectId) (c : ObjectId)
    → 0 < fuel
    → (contains (climb cat fuel seen (some c)) c ≡ true) ⊎ (contains seen c ≡ true)
unfolding climb
climb_head cat zero seen c h = elim h [ ]
climb_head cat (suc fuel) seen c h = elim (Bool-cases (contains seen c)) [
  | inl y ↦ inr y
  | inr n ↦ inl (ground (arith, ==_refl c))
]

module _ (cat : Catalog) where
  -- With fuel for what is unseen, the climb stops only at the top or at what it has seen: the
  -- container of an object that it lists is listed, or was seen before.
  climb_closed :
      (fuel : ℕ) (seen : List ObjectId) (c x y : ObjectId)
      → is_box c ≡ true
      → unseen seen (candidates cat) < fuel
      → contains (climb cat fuel seen (some c)) x ≡ true
      → container cat x ≡ some y
      → (contains (climb cat fuel seen (some c)) y ≡ true) ⊎ (contains seen y ≡ true)
  unfolding climb
  climb_closed zero seen c x y b f m e = elim f [ ]
  climb_closed (suc fuel) seen c x y b f m e = elim (Bool-cases (contains seen c)) [
    | inl old ↦ absurd (cc (rw (old, if◌then◌else◌) at m))
    | inr fresh ↦
        let rest = climb cat fuel (c ∷ seen) (container cat c) in
        let found : (contains rest y ≡ true) ⊎ (contains (c ∷ seen) y ≡ true) =
          elim (||-eq-true (c == x) (contains rest x) (rw (fresh, if◌then◌else◌) at m)) [
            | inl same ↦
                let e' : container cat c ≡ some y =
                  subst (λ z. container cat z ≡ some y) (sym (eq_of_== same)) e in
                let less =
                  unseen-cons-lt c seen (candidates cat) (box-candidate cat c b e') fresh in
                rw e' (climb_head cat fuel (c ∷ seen) y (omega arith))
            | inr later ↦
                let (d, e', above) = climb-Above cat fuel (c ∷ seen) (container cat c) x later in
                let less =
                  unseen-cons-lt c seen (candidates cat) (box-candidate cat c b e') fresh in
                rw e' (
                  climb_closed fuel (c ∷ seen) d x y (container-is_box cat c e') (omega arith)
                    (rw e' at later) e)
          ] in
        rw (fresh, if◌then◌else◌) (regroup (c == y) (contains rest y) (contains seen y) found)
  ]
    where
      regroup : (p q r : Bool) → (q ≡ true) ⊎ ((p || r) ≡ true) → ((p || q) ≡ true) ⊎ (r ≡ true)
      regroup true q r h = inl refl
      regroup false q r h = h

  path_closed :
      (o x y : ObjectId)
      → contains (path cat o) x ≡ true
      → container cat x ≡ some y
      → contains (path cat o) y ≡ true
  unfolding path
  path_closed o x y m e = elim (||-eq-true (o == x) _ m) [
    | inl same ↦
        let e' : container cat o ≡ some y =
          subst (λ z. container cat z ≡ some y) (sym (eq_of_== same)) e in
        rw e' (elim (climb_head cat (rounds cat) [] y (omega arith)) [
          | inl h ↦ ground arith
          | inr h ↦ cc
        ])
    | inr later ↦
        let (c, e', above) = climb-Above cat (rounds cat) [] (container cat o) x later in
        elim (climb_closed (rounds cat) [] c x y (container-is_box cat o e') enough (rw e' at later)
          e) [ inl h ↦ rw e' (ground arith) | inr h ↦ cc ]
  ]
    where
      enough : unseen [] (candidates cat) < rounds cat
      enough = omega (
        arith,
        unseen-le-length [] (candidates cat),
        length-append (map folder (keys cat.folder_parent))
            (map collection (keys cat.collection_parent)),
        length-map folder (keys cat.folder_parent),
        length-map collection (keys cat.collection_parent),
      )

  contains_of_closed :
      (xs : List ObjectId) {o a : ObjectId}
      → ((x y : ObjectId) → contains xs x ≡ true → container cat x ≡ some y → contains xs y ≡ true)
      → Above cat o a
      → contains xs o ≡ true
      → contains xs a ≡ true
  contains_of_closed xs closed here h = h
  contains_of_closed xs closed (up {o = x} {c = y} e above) h =
      contains_of_closed xs closed above (closed x y h e)

  -- The path of an object holds exactly what lies above it, the object included. So the loop of
  -- `path` comes to its end within its fuel, and a loop among the entries cuts off nothing.
  pub contains-path : (o a : ObjectId) → (contains (path cat o) a ≡ true) ↔ Above cat o a
  unfolding path
  contains-path o a =
      (to, λ h. contains_of_closed (path cat o) (path_closed o) h (ground (arith, ==_refl o)))
    where
      to : contains (path cat o) a ≡ true → Above cat o a
      to m = elim (||-eq-true (o == a) _ m) [
        | inl same ↦ subst (λ z. Above cat o z) (eq_of_== same) here
        | inr later ↦
            let (c, e, above) = climb-Above cat (rounds cat) [] (container cat o) a later in
            up e above
      ]
