-- ===== src/Catalog/Tests.antt =====
-- A small site: two nested folders, a device in the inner one, a collection with a credential, and
-- what three people may do.
use remotehub.Base.{
  nat_eq, true, false, none, some, List, [], ◌∷◌, ◌≡◌, refl, ◌↔◌, ◌⊎◌, contains, map,
}
use remotehub.Base.Int.{pos}
use remotehub.Base.Map.{get, insert}
use remotehub.Catalog.Defs.{
  object_eq, list, connect, reveal, edit, manage, as_str, parse_role, folder, device, profile,
  Subject, Grant, Objects, Catalog, new, group_grants, add_grant, container, contains_object, path,
  climb,
}
use remotehub.Catalog.Roles.{
  effective_role, highest, grants_along, reasons, authorize, may_request, visible, visible_roles,
  mark_ways, mark_ancestors,
}
use remotehub.Catalog.Path.{Above, contains-path}
use remotehub.Catalog.Rights.{Allows, authorize-new_iff, may_request_iff}
use remotehub.Catalog.Reasons.{effective_role-reasons}
use remotehub.Catalog.Visible.{get-visible}

catalog_code : Unit {0}
unfolding new group_grants add_grant get insert container contains_object path climb effective_role
    highest grants_along reasons authorize may_request visible visible_roles mark_ways
    mark_ancestors as_str parse_role
catalog_code = tt

abbrev site : Objects
site = record {
  folders = (1, none) ∷ (2, some 1) ∷ [];
  collections = (7, none) ∷ [];
  devices = (3, 2) ∷ [];
  credentials = (8, 7) ∷ [];
  profiles = (4, some 2) ∷ (5, none) ∷ [];
}

abbrev given : List Grant
given =
    record { object = folder 1; principal = "S-ann"; role = connect; until = none }
    ∷ record { object = device 3; principal = "S-bob"; role = edit; until = some (pos 100) }
    ∷ record { object = folder 2; principal = "S-ann"; role = reveal; until = some (pos 50) }
    ∷ []

abbrev at_60 : Catalog
at_60 = new site given (pos 60)

abbrev ann : Subject
ann = record { sids = "S-ann" ∷ "S-staff" ∷ []; admin = false }

abbrev bob : Subject
bob = record { sids = "S-bob" ∷ []; admin = false }

abbrev root : Subject
root = record { sids = []; admin = true }

roles_tests :
    (effective_role at_60 ann (device 3) ≡ some connect)
    × (effective_role (new site given (pos 40)) ann (device 3) ≡ some reveal)
    × (effective_role at_60 bob (device 3) ≡ some edit)
    × (effective_role at_60 bob (folder 2) ≡ none)
    × (effective_role at_60 root (profile 5) ≡ some manage)
    × (effective_role at_60 root (device 9) ≡ none)
    × (path at_60 (device 3) ≡ device 3 ∷ folder 2 ∷ folder 1 ∷ [])
    × ((visible at_60 bob).path_only ≡ 1 ∷ 2 ∷ [])
unfolding catalog_code
roles_tests = (refl, refl, refl, refl, refl, refl, refl, refl)

abbrev looped : Catalog
looped = new (record site { folders = (1, some 2) ∷ (2, some 1) ∷ [] }) [] (pos 0)

path_loop : path looped (folder 1) ≡ folder 1 ∷ folder 2 ∷ folder 1 ∷ []
unfolding catalog_code
path_loop = refl

contains-path_example :
    (contains (path looped (folder 1)) (folder 2) ≡ true) ↔ Above looped (folder 1) (folder 2)
contains-path_example = contains-path looped (folder 1) (folder 2)

authorize-new_iff_example : (authorize at_60 ann connect (device 3) ≡ true) ↔ (
    (contains_object at_60 (device 3) ≡ true)
    × ((ann.admin ≡ true) ⊎ Allows site given (pos 60) ann connect (device 3)))
authorize-new_iff_example = authorize-new_iff site given (pos 60) ann connect (device 3)

may_request_iff_example : (may_request at_60 ann reveal (device 3) ≡ true) ↔ (
    ((reveal ≡ connect) ⊎ (reveal ≡ reveal))
    × (authorize at_60 ann list (device 3) ≡ true)
    × (authorize at_60 ann reveal (device 3) ≡ false))
may_request_iff_example = may_request_iff at_60 ann reveal (device 3)

effective_role-reasons_example :
    effective_role at_60 ann (device 3) ≡ highest (map (λ g. g.2) (reasons at_60 ann (device 3)))
unfolding catalog_code
effective_role-reasons_example = effective_role-reasons at_60 ann (device 3) refl refl

get-visible_example : get (visible at_60 bob).roles (device 3) ≡ effective_role at_60 bob (device 3)
get-visible_example = get-visible at_60 bob (device 3)
