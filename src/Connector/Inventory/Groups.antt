-- ===== src/Connector/Inventory/Groups.antt =====
-- A group added to the customer's list in crates/connector/src/inventory.rs.
use remotehub.Base.{
  true, false, ◌&&◌, ◌||◌, not, List, [], ◌∷◌, ◌++◌, map, ◌==◌, all, contains, contains-append,
  arith, ◌≡◌, refl, ap, sym, ◌∙◌,
}
use remotehub.Base.Text.{Text, text_eq, text_before}
use remotehub.Base.Sort.{sort_by_key, distinct, contains-sort_by_key, distinct-sort_by_key}
use remotehub.Connector.Inventory.Defs.{Device, Inventory, ok, add_group}
use remotehub.Connector.Inventory.Valid.{knows_groups, IsValid, distinct-append_one}

-- More groups are known of a device where the list has more.
knows_groups-more :
    (groups more : List Text)
    → ((g : Text) → contains groups g ≡ true → contains more g ≡ true)
    → (gs : List Text) → all (λ g. contains groups g) gs ≡ true
    → all (λ g. contains more g) gs ≡ true
knows_groups-more groups more h [] k = refl
knows_groups-more groups more h (g ∷ gs) k = ground (arith, h g, knows_groups-more groups more h gs)

all-knows_groups-more :
    (groups more : List Text)
    → ((g : Text) → contains groups g ≡ true → contains more g ≡ true)
    → (ds : List Device) → all (knows_groups groups) ds ≡ true
    → all (knows_groups more) ds ≡ true
all-knows_groups-more groups more h [] k = refl
all-knows_groups-more groups more h (d ∷ ds) k =
    ground (arith, knows_groups-more groups more h d.groups, all-knows_groups-more groups more h ds)

map_id : (xs : List Text) → map (λ x. x) xs ≡ xs
map_id [] = refl
map_id (x ∷ xs) = ap (λ ys. x ∷ ys) (map_id xs)

module _ (lower : Text → Text) where
  pub add_group_inv :
      (inventory : Inventory) (name : Text) {after : Inventory}
      → add_group lower inventory name ≡ ok after
      → (contains inventory.groups name ≡ false)
        × (after.devices ≡ inventory.devices)
        × (after.groups ≡ sort_by_key text_before lower (inventory.groups ++ name ∷ []))
  unfolding add_group
  add_group_inv inventory name h = ground arith

  pub sorted_groups-contains :
      (gs : List Text) (name g : Text)
      → contains (sort_by_key text_before lower (gs ++ name ∷ [])) g
        ≡ (contains gs g || (name == g))
  sorted_groups-contains gs name g =
      ap (λ xs. contains xs g) (sym (map_id (sort_by_key text_before lower (gs ++ name ∷ []))))
      ∙ (contains-sort_by_key text_before lower (λ x. x) (gs ++ name ∷ []) g
          ∙ (ap (λ xs. contains xs g) (map_id (gs ++ name ∷ []))
              ∙ (contains-append gs (name ∷ []) g ∙ ground arith)))

  sorted_groups-distinct :
      (gs : List Text) (name : Text)
      → distinct (sort_by_key text_before lower (gs ++ name ∷ []))
        ≡ (not (contains gs name) && distinct gs)
  sorted_groups-distinct gs name =
      ap {A = List Text} (distinct {A = Text})
        (sym (map_id (sort_by_key text_before lower (gs ++ name ∷ []))))
      ∙ (distinct-sort_by_key text_before lower (λ x. x) (gs ++ name ∷ [])
          ∙ (ap {A = List Text} (distinct {A = Text}) (map_id (gs ++ name ∷ []))
              ∙ distinct-append_one gs name))

  pub add_group-IsValid :
      (inventory after : Inventory) (name : Text)
      → IsValid inventory
      → add_group lower inventory name ≡ ok after
      → IsValid after
  add_group-IsValid inventory after name v h =
      let (fresh, devices, groups) = add_group_inv inventory name h in
      record {
        names = rw devices v.names;
        group_names =
            rw (groups, sorted_groups-distinct inventory.groups name, fresh) v.group_names;
        ports = rw devices v.ports;
        groups_known = rw devices (
            all-knows_groups-more inventory.groups after.groups
              (λ g m. rw (groups, sorted_groups-contains inventory.groups name g, m) refl)
              inventory.devices v.groups_known);
      }
