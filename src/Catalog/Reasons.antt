-- ===== src/Catalog/Reasons.antt =====
-- `reasons` of crates/model/src/lib.rs explains what `effective_role` decides.
use mathlib.Core.List.{map-append}
use remotehub.Base.{
  String, Bool, true, false, List, [], ◌∷◌, map, arith, ◌≡◌, refl, contains, string_eq, filter,
  filter-append,
}
use remotehub.Catalog.Defs.{Role, ObjectId, Subject, Catalog, contains_object, path}
use remotehub.Catalog.Roles.{entries_at, names_one_of, highest, flat_map, effective_role, reasons}

module _ (sids : List String) where
  abbrev placed : ObjectId → String × Role → ObjectId × String × Role
  placed on g = (on, g.0, g.1)

  abbrev named : ObjectId × String × Role → Bool
  named g = contains sids g.1

  reasons-at :
      (on : ObjectId) (es : List (String × Role))
      → map (λ g. g.2) (filter named (map (placed on) es))
        ≡ map (λ g. g.1) (filter (names_one_of sids) es)
  reasons-at on [] = refl
  reasons-at on ((p, r) ∷ es) = ground (arith, reasons-at on es)

  reasons-along :
      (cat : Catalog) (os : List ObjectId)
      → map (λ g. g.2) (filter named (flat_map (λ on. map (placed on) (entries_at cat on)) os))
        ≡ map (λ g. g.1) (filter (names_one_of sids) (flat_map (entries_at cat) os))
  reasons-along cat [] = refl
  reasons-along cat (o ∷ os) =
      simp (filter-append, map-append, reasons-at o (entries_at cat o), reasons-along cat os)

-- On an object that exists, the role of a subject who is no administrator is the highest role among
-- the reasons that are listed for it, and none where none is listed.
pub effective_role-reasons :
    (cat : Catalog) (s : Subject) (o : ObjectId)
    → contains_object cat o ≡ true
    → s.admin ≡ false
    → effective_role cat s o ≡ highest (map (λ g. g.2) (reasons cat s o))
unfolding effective_role reasons
effective_role-reasons cat s o there person =
    rw (there, person, reasons-along s.sids cat (path cat o)) refl
