-- ===== src/Catalog/Visible.antt =====
-- `visible` of crates/model/src/lib.rs, its second half: the folders and collections shown only as
-- the way to something visible.
use remotehub.Base.{
  &&-eq-true, Bool, true, false, not, none, List, [], ◌∷◌, arith, ◌≡◌, ◌≢◌, refl, sym, subst, inl,
  inr, ◌↔◌, ◌&&◌, ◌||◌, ◌∙◌, if◌then◌else◌, ◌==◌, Bool-cases, Option-cases, contains, contains-Memᴰ,
  Memᴰ-contains, any, any-Memᴰ, any_of_Memᴰ, nat_eq, eq_of_==, ==_refl,
}
use remotehub.Base.Map.{HashMap, get, keys, contains_key, get-contains_key, get_of_contains_key}
use remotehub.Catalog.Defs.{
  Role, Uuid, ObjectId, folder, collection, object_eq, same_object, Subject, Catalog, path,
}
use remotehub.Catalog.Roles.{
  effective_role, Visibility, visible_roles, add_to_set, show_way, mark_ancestor, mark_ancestors,
  skip_one, mark_ways, visible,
}
use remotehub.Catalog.Path.{Above, contains-path}
use remotehub.Catalog.Listed.{get-visible_roles}

-- What is shown only as a way: a folder in the one set, a collection in the other.
abbrev shown : Visibility → ObjectId → Bool
shown v (folder id) = contains v.path_only id
shown v (collection id) = contains v.collections_path_only id
shown v _ = false

abbrev is_box : ObjectId → Bool
is_box (folder id) = true
is_box (collection id) = true
is_box _ = false

contains-add_to_set :
    (set : List Uuid) (id x : Uuid) → contains (add_to_set set id) x ≡ ((id == x) || contains set x)
contains-add_to_set set id x = elim (Bool-cases (contains set id)) [
  | inl y ↦ rw y (elim (Bool-cases (id == x)) [
    | inl e ↦ rw e (subst (λ z. contains set z ≡ true) (eq_of_== e) y)
    | inr n ↦ rw n refl
  ])
  | inr n ↦ rw n refl
]

shown-show_way :
    (v : Visibility) (b a : ObjectId)
    → shown (show_way v b) a ≡ ((same_object b a && is_box a) || shown v a)
shown-show_way v (folder i) (folder j) = rw (contains-add_to_set v.path_only i j) (ground arith)
shown-show_way v (collection i) (collection j) =
    rw (contains-add_to_set v.collections_path_only i j) (ground arith)
shown-show_way v b a = ground arith

regroup : (p q h r : Bool) → ((p && h) || ((q && h) || r)) ≡ (((q || p) && h) || r)
regroup p q h r = ground arith

mark_ancestor-roles : (v : Visibility) (a : ObjectId) → (mark_ancestor v a).roles ≡ v.roles
mark_ancestor-roles v a = ground arith

-- A box that is not visible itself.
abbrev hides : HashMap ObjectId Role → ObjectId → Bool
hides roles a = is_box a && not (contains_key roles a)

shown-mark_ancestor :
    (v : Visibility) (b a : ObjectId)
    → shown (mark_ancestor v b) a ≡ ((same_object b a && hides v.roles a) || shown v a)
shown-mark_ancestor v b a = elim (Bool-cases (same_object b a)) [
  | inl same ↦
      let e : b ≡ a = eq_of_== same in
      elim (Bool-cases (contains_key v.roles a)) [
        | inl y ↦ rw (e, y) (ground arith)
        | inr n ↦ rw (e, n, if◌then◌else◌) (rw (shown-show_way v a a, ==_refl a) (ground arith))
      ]
  | inr other ↦ elim (Bool-cases (contains_key v.roles b)) [
    | inl y ↦ rw (other, y) refl
    | inr n ↦ rw (n, if◌then◌else◌) (rw (shown-show_way v b a, other) refl)
  ]
]

mark_ancestors-roles : (v : Visibility) (os : List ObjectId) → (mark_ancestors v os).roles ≡ v.roles
unfolding mark_ancestors
mark_ancestors-roles v [] = refl
mark_ancestors-roles v (o ∷ os) =
    mark_ancestors-roles (mark_ancestor v o) os ∙ mark_ancestor-roles v o

shown-mark_ancestors :
    (v : Visibility) (os : List ObjectId) (a : ObjectId)
    → shown (mark_ancestors v os) a ≡ ((contains os a && hides v.roles a) || shown v a)
unfolding mark_ancestors
shown-mark_ancestors v [] a = refl
shown-mark_ancestors v (o ∷ os) a =
    rw
      (
        shown-mark_ancestors (mark_ancestor v o) os a,
        shown-mark_ancestor v o a,
        mark_ancestor-roles v o,
      )
      (regroup (contains os a) (same_object o a) (hides v.roles a) (shown v a))

mark_ways-roles :
    (cat : Catalog) (v : Visibility) (os : List ObjectId) → (mark_ways cat v os).roles ≡ v.roles
unfolding mark_ways
mark_ways-roles cat v [] = refl
mark_ways-roles cat v (o ∷ os) =
    mark_ways-roles cat (mark_ancestors v (skip_one (path cat o))) os
    ∙ mark_ancestors-roles v (skip_one (path cat o))

shown-mark_ways :
    (cat : Catalog) (v : Visibility) (os : List ObjectId) (a : ObjectId)
    → shown (mark_ways cat v os) a
      ≡ ((any (λ o. contains (skip_one (path cat o)) a) os && hides v.roles a) || shown v a)
unfolding mark_ways
shown-mark_ways cat v [] a = refl
shown-mark_ways cat v (o ∷ os) a =
    let ways = skip_one (path cat o) in
    rw
      (
        shown-mark_ways cat (mark_ancestors v ways) os a,
        shown-mark_ancestors v ways a,
        mark_ancestors-roles v ways,
      )
      (regroup (any (λ x. contains (skip_one (path cat x)) a) os) (contains ways a)
        (hides v.roles a) (shown v a))

-- The roles that are visible are the effective roles, for every object.
pub get-visible :
    (cat : Catalog) (s : Subject) (o : ObjectId)
    → get (visible cat s).roles o ≡ effective_role cat s o
unfolding visible
get-visible cat s o = rw mark_ways-roles (get-visible_roles cat s o)

-- A subject sees an object that lies in `a` or is it.
pub record SeesBelow (cat : Catalog) (s : Subject) (a : ObjectId) : Type 0 where
  pub object : ObjectId
  pub seen : effective_role cat s object ≢ none
  pub above : Above cat object a

contains_key-visible_roles :
    (cat : Catalog) (s : Subject) (o : ObjectId)
    → (contains_key (visible_roles cat s) o ≡ true) ↔ (effective_role cat s o ≢ none)
contains_key-visible_roles cat s o = (
  λ h.
      let (r, e) = get_of_contains_key (visible_roles cat s) o h in
      λ n. ground (arith, get-visible_roles cat s o),
  λ n. elim (Option-cases (effective_role cat s o)) [
    | inl e ↦ absurd (n e)
    | inr (r, e) ↦ get-contains_key (visible_roles cat s) o (get-visible_roles cat s o ∙ e)
  ],
)

shown_nothing :
    (roles : HashMap ObjectId Role) (a : ObjectId)
    → shown (record { roles = roles; path_only = []; collections_path_only = [] }) a ≡ false
shown_nothing roles (folder id) = refl
shown_nothing roles _ = refl

-- Above an object but the object itself.
abbrev ways_to : Catalog → ObjectId → ObjectId → Bool
ways_to cat a o = contains (skip_one (path cat o)) a

ways_to_iff :
    (cat : Catalog) (a o : ObjectId)
    → same_object o a ≡ false
    → (ways_to cat a o ≡ true) ↔ Above cat o a
unfolding path
ways_to_iff cat a o other = (
  λ h. (contains-path cat o a).0 (ground arith),
  λ h. ground (arith, (contains-path cat o a).1 h),
)

shown-visible :
    (cat : Catalog) (s : Subject) (a : ObjectId)
    → shown (visible cat s) a
      ≡ (any (ways_to cat a) (keys (visible_roles cat s)) && hides (visible_roles cat s) a)
unfolding visible
shown-visible cat s a =
    let roles = visible_roles cat s in
    let v : Visibility = record { roles = roles; path_only = []; collections_path_only = [] } in
    shown-mark_ways cat v (keys roles) a ∙ ground (arith, shown_nothing roles a)

module _ (cat : Catalog) (s : Subject) (a : ObjectId) where
  hides-role : hides (visible_roles cat s) a ≡ true → effective_role cat s a ≡ none
  hides-role h = elim (Option-cases (effective_role cat s a)) [
    | inl e ↦ e
    | inr (r, e) ↦ ground (arith, (contains_key-visible_roles cat s a).1 (λ n. ground arith))
  ]

  role-hides :
      is_box a ≡ true → effective_role cat s a ≡ none → hides (visible_roles cat s) a ≡ true
  role-hides box e = elim (Bool-cases (contains_key (visible_roles cat s) a)) [
    | inl y ↦ absurd ((contains_key-visible_roles cat s a).0 y e)
    | inr n ↦ rw (box, n) refl
  ]

  not_same :
      (o : ObjectId)
      → effective_role cat s o ≢ none
      → effective_role cat s a ≡ none
      → same_object o a ≡ false
  not_same o seen e = elim (Bool-cases (same_object o a)) [
    | inl y ↦ absurd (seen (subst (λ z. effective_role cat s z ≡ none) (sym (eq_of_== y)) e))
    | inr n ↦ n
  ]

  shown-SeesBelow :
      shown (visible cat s) a ≡ true → (effective_role cat s a ≡ none) × SeesBelow cat s a
  shown-SeesBelow h =
      let (some_way, hidden) = &&-eq-true _ _ (rw shown-visible at h) in
      let (o, in_keys, way) = any-Memᴰ (ways_to cat a) (keys (visible_roles cat s)) some_way in
      let seen =
        (contains_key-visible_roles cat s o).0
          (Memᴰ-contains o (keys (visible_roles cat s)) in_keys) in
      let e = hides-role hidden in
      (
        e,
        record { object = o; seen = seen; above = (ways_to_iff cat a o (not_same o seen e)).0 way },
      )

  SeesBelow-shown :
      is_box a ≡ true
      → effective_role cat s a ≡ none
      → SeesBelow cat s a
      → shown (visible cat s) a ≡ true
  SeesBelow-shown box e b =
      let key = (contains_key-visible_roles cat s b.object).1 b.seen in
      let way = (ways_to_iff cat a b.object (not_same b.object b.seen e)).1 b.above in
      rw
        (
          shown-visible cat s a,
          role-hides box e,
          any_of_Memᴰ (ways_to cat a) (keys (visible_roles cat s))
              (contains-Memᴰ b.object (keys (visible_roles cat s)) key) way,
        )
        refl

-- A folder is shown only as a way exactly if the subject holds no role on it, and one on something
-- that lies in it, directly or further down; and so for a collection.
pub path_only_iff :
    (cat : Catalog) (s : Subject) (id : Uuid)
    → ((contains (visible cat s).path_only id ≡ true)
        ↔ ((effective_role cat s (folder id) ≡ none) × SeesBelow cat s (folder id)))
      × ((contains (visible cat s).collections_path_only id ≡ true)
          ↔ ((effective_role cat s (collection id) ≡ none) × SeesBelow cat s (collection id)))
path_only_iff cat s id = (
  (shown-SeesBelow cat s (folder id), λ h. SeesBelow-shown cat s (folder id) refl h.0 h.1),
  (shown-SeesBelow cat s (collection id), λ h. SeesBelow-shown cat s (collection id) refl h.0 h.1),
)
