-- ===== src/Connector/Inventory/Lookup.antt =====
-- What is found on the customer's list after a change (crates/connector/src/inventory.rs).
use mathlib.Core.List.{map-append}
use remotehub.Base.{
  true, false, ◌&&◌, not, none, some, List, [], ◌∷◌, ◌++◌, map, if◌then◌else◌, ◌==◌, find, filter,
  contains, arith, ◌≡◌, refl, ap, subst, ◌∙◌, Bool-cases, inl, inr, eq_of_==, or_else,
}
use remotehub.Base.Text.{Text, text_eq, text_before}
use remotehub.Base.Sort.{distinct, find_by-sort_by_key, find_by_missing, or_else-none}
use remotehub.Connector.Inventory.Defs.{
  Device, Inventory, ok, device, has_group, add_device, remove_first, remove_device, leave_group,
  remove_group,
}
use remotehub.Connector.Inventory.Valid.{
  device_name, IsValid, distinct-append_one, add_device-Addable, device-contains,
}
use remotehub.Connector.Inventory.Removal.{remove_device_inv, remove_group_inv, without-contains}
use remotehub.Connector.Inventory.Defs.{members}

find-append_one :
    (ds : List Device) (d : Device) (n : Text)
    → find (λ x. x.name == n) (ds ++ d ∷ [])
      ≡ or_else (find (λ x. x.name == n) ds) (if d.name == n then some d else none)
find-append_one [] d n = refl
find-append_one (x ∷ ds) d n = ground (arith, find-append_one ds d n)

-- After a device is added to a valid list, its name finds it, and every other name what it found
-- before.
pub device-add_device :
    (lower : Text → Text) (inventory after : Inventory) (d : Device) (n : Text)
    → IsValid inventory
    → add_device lower inventory d ≡ ok after
    → device after n ≡ (if d.name == n then some d else device inventory n)
unfolding device
device-add_device lower inventory after d n v h =
    let a = add_device-Addable lower inventory d h in
    ap (λ ds. find (λ x. x.name == n) ds) a.sorted
    ∙ (find_by-sort_by_key text_before (λ x. lower x.name) device_name (inventory.devices ++ d ∷ [])
          n
          (rw (map-append, distinct-append_one)
            (rw (device-contains inventory.devices d.name a.new_name) v.names))
        ∙ (find-append_one inventory.devices d n ∙ choose a.new_name))
  where
    choose :
        find (λ x. x.name == d.name) inventory.devices ≡ none
        → or_else (find (λ x. x.name == n) inventory.devices) (if d.name == n then some d else none)
          ≡ (if d.name == n then some d else find (λ x. x.name == n) inventory.devices)
    choose fresh = elim (Bool-cases (d.name == n)) [
      | inl same ↦
          rw
            (
              same,
              subst (λ m. find (λ (x : Device). x.name == m) inventory.devices ≡ none)
                  (eq_of_== same) fresh,
            )
            refl
      | inr other ↦ rw other (or_else-none (find (λ x. x.name == n) inventory.devices))
    ]

find-remove_first :
    (name : Text) (ds : List Device) (n : Text)
    → distinct (map device_name ds) ≡ true
    → find (λ x. x.name == n) (remove_first name ds)
      ≡ (if name == n then none else find (λ x. x.name == n) ds)
find-remove_first name [] n h = ground arith
find-remove_first name (d ∷ ds) n h = elim (Bool-cases (d.name == name)) [
  | inl same ↦
      let e : d.name ≡ name = eq_of_== same in
      let gone : find (λ (x : Device). x.name == name) ds ≡ none =
        find_by_missing text_before (λ (x : Device). x.name) device_name ds name
          (subst (λ m. contains (map device_name ds) m ≡ false) e (ground arith)) in
      rw (same, e)
        (elim (Bool-cases (name == n)) [
          | inl y ↦
              rw y (subst (λ m. find (λ (x : Device). x.name == m) ds ≡ none) (eq_of_== y) gone)
          | inr o ↦ rw o refl
        ])
  | inr other ↦
      rw (other, if◌then◌else◌)
        (ground (
          arith,
          find-remove_first name ds n,
          text_eq.test_iff name n,
          text_eq.test_iff d.name n,
          text_eq.test_iff d.name name,
        ))
]

-- After a device is removed from a valid list, its name finds nothing, and every other name what it
-- found before.
pub device-remove_device :
    (inventory after : Inventory) (name n : Text)
    → IsValid inventory
    → remove_device inventory name ≡ ok after
    → device after n ≡ (if name == n then none else device inventory n)
unfolding device
device-remove_device inventory after name n v h =
    rw (remove_device_inv inventory name h) (find-remove_first name inventory.devices n v.names)

members-leave_group :
    (name g : Text) (ds : List Device)
    → filter (λ d. contains d.groups g) (map (leave_group name) ds)
      ≡ (if name == g then [] else map (leave_group name) (filter (λ d. contains d.groups g) ds))
members-leave_group name g [] = ground arith
members-leave_group name g (d ∷ ds) = ground (
  arith,
  members-leave_group name g ds,
  without-contains name d.groups g,
  (text_eq.test_iff g name),
  (text_eq.test_iff name g),
)

-- After a group is removed, it is not on the list and has no members, and every other group stays,
-- with the members that it had, each of which has left the removed one.
pub members-remove_group :
    (inventory after : Inventory) (name g : Text)
    → remove_group inventory name ≡ ok after
    → (has_group after g ≡ (has_group inventory g && not (g == name)))
      × (members after g ≡ (if name == g then [] else map (leave_group name) (members inventory g)))
unfolding members has_group
members-remove_group inventory after name g h =
    let (devices, groups) = remove_group_inv inventory name h in
    (
      rw groups (without-contains name inventory.groups g),
      rw devices (members-leave_group name g inventory.devices),
    )
