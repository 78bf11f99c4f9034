-- ===== src/Connector/Access/RanOut.antt =====
-- After a round of `Gate::follow` in crates/connector/src/access.rs that can read and write its files,
-- nothing is left that ran out.
use remotehub.Base.{
  Bool, true, false, ◌&&◌, ◌||◌, some, List, [], ◌∷◌, ◌++◌, map, filter, any, find, arith, ◌≡◌,
  refl, ◌∙◌, ◌==◌, contains, HasEq, nat_eq, inl, inr, Bool-cases, Option-cases,
}
use remotehub.Base.Map.{HashMap, get, get-contains_key}
use remotehub.Base.Text.{Text, text_eq}
use remotehub.Connector.Inventory.Defs.{Device, Inventory, device, has_group}
use remotehub.Connector.Inventory.Valid.{device_name}
use remotehub.Connector.Access.Defs.{
  Time, is_open, closes_at, Scope, network, device_scope, group_scope, request_scope, Stored,
  AccessFile, stored_at, is_some, entries, all_stored, Snapshot,
}
use remotehub.Connector.Access.Queries.{ran_out, is_over}
use remotehub.Connector.Access.Changes.{is_known}
use remotehub.Connector.Access.Effects.{same_scope}
use remotehub.Connector.Access.Listed.{IsListed}

abbrev pub over : Time → AccessFile → Scope → Bool
over now file scope = is_over now (scope, stored_at file scope)

abbrev found_over : Time → Scope → List (Scope × Stored) → Bool
found_over now scope xs = any (λ e. same_scope e.0 scope && is_over now e) xs

found_over-append :
    (now : Time) (scope : Scope) (xs ys : List (Scope × Stored))
    → found_over now scope (xs ++ ys) ≡ (found_over now scope xs || found_over now scope ys)
found_over-append now scope [] ys = refl
found_over-append now scope (x ∷ xs) ys = ground (arith, found_over-append now scope xs ys)

entries-over :
    {K : Type 0} {V : Type 0} ⦃e : HasEq K⦄ (scope : K → Scope) (stored : V → Stored)
    → ((a b : K) → same_scope (scope a) (scope b) ≡ (a == b))
    → (now : Time) (m : HashMap K V) (k : K) (v : V) → get m k ≡ some v
    → is_over now (scope k, stored v) ≡ true
    → found_over now (scope k) (entries scope stored m) ≡ true
unfolding get
entries-over scope stored h now [] k v g o = cc
entries-over scope stored h now ((j, w) ∷ m) k v g o = elim (Bool-cases (j == k)) [
  | inl y ↦ ground (arith, h j k)
  | inr n ↦ ground (arith, h j k, entries-over scope stored h now m k v)
]

-- What is over stands among all the scopes.
all_stored-over :
    (now : Time) (file : AccessFile) (scope : Scope)
    → over now file scope ≡ true
    → found_over now scope (all_stored file) ≡ true
unfolding all_stored stored_at is_open closes_at
all_stored-over now file network o = ground arith
all_stored-over now file (device_scope n) o = elim (Option-cases (get file.devices n)) [
  | inl e ↦ ground arith
  | inr (s, e) ↦ ground (
    arith,
    found_over-append now (device_scope n) (entries device_scope (λ s. s) file.devices) (
        entries group_scope (λ s. s) file.groups
        ++ entries request_scope (λ g. g.stored) file.requests),
    entries-over device_scope (λ s. s) (λ a b. refl) now file.devices n s e,
  )
]
all_stored-over now file (group_scope n) o = elim (Option-cases (get file.groups n)) [
  | inl e ↦ ground arith
  | inr (s, e) ↦ ground (
    arith,
    found_over-append now (group_scope n) (entries device_scope (λ s. s) file.devices) (
        entries group_scope (λ s. s) file.groups
        ++ entries request_scope (λ g. g.stored) file.requests),
    found_over-append now (group_scope n) (entries group_scope (λ s. s) file.groups)
        (entries request_scope (λ g. g.stored) file.requests),
    entries-over group_scope (λ s. s) (λ a b. refl) now file.groups n s e,
  )
]
all_stored-over now file (request_scope n) o = elim (Option-cases (get file.requests n)) [
  | inl e ↦ ground arith
  | inr (s, e) ↦ ground (
    arith,
    found_over-append now (request_scope n) (entries device_scope (λ s. s) file.devices) (
        entries group_scope (λ s. s) file.groups
        ++ entries request_scope (λ g. g.stored) file.requests),
    found_over-append now (request_scope n) (entries group_scope (λ s. s) file.groups)
        (entries request_scope (λ g. g.stored) file.requests),
    entries-over request_scope (λ g. g.stored) (λ a b. refl) now file.requests n s e,
  )
]

abbrev pub names : List Scope → Scope → Bool
names scopes other = any (λ s. same_scope s other) scopes

names-filter :
    (now : Time) (xs : List (Scope × Stored)) (scope : Scope)
    → names (map (λ e. e.0) (filter (is_over now) xs)) scope ≡ found_over now scope xs
names-filter now [] scope = refl
names-filter now (x ∷ xs) scope = ground (arith, names-filter now xs scope)

pub ran_out-over :
    (s : Snapshot) (now : Time) (scope : Scope)
    → over now s.access scope ≡ true
    → names (ran_out s now) scope ≡ true
unfolding ran_out
ran_out-over s now scope o =
    names-filter now (all_stored s.access) scope ∙ all_stored-over now s.access scope o

unfound :
    (ds : List Device) (n : Text)
    → is_some (find (λ d. d.name == n) ds) ≡ false
    → contains (map device_name ds) n ≡ false
unfound [] n h = refl
unfound (d ∷ ds) n h = ground (arith, unfound ds n)

-- What is not known has no access.
pub unknown-over :
    (now : Time) (file : AccessFile) (list : Inventory) (scope : Scope)
    → IsListed file list
    → is_known list file scope ≡ false
    → over now file scope ≡ false
unfolding is_known stored_at device has_group is_open closes_at
unknown-over now file list network l k = ground arith
unknown-over now file list (device_scope n) l k = elim (Option-cases (get file.devices n)) [
  | inl e ↦ ground arith
  | inr (s, e) ↦ ground (arith, unfound list.devices n k, l.devices n s e)
]
unknown-over now file list (group_scope n) l k = elim (Option-cases (get file.groups n)) [
  | inl e ↦ ground arith
  | inr (s, e) ↦ ground (arith, l.groups n s e)
]
unknown-over now file list (request_scope n) l k = elim (Option-cases (get file.requests n)) [
  | inl e ↦ ground arith
  | inr (s, e) ↦ ground (arith, get-contains_key file.requests n e)
]
