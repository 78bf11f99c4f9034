-- ===== src/Connector/Inventory/Removal.antt =====
-- A device or a group removed from the customer's list in crates/connector/src/inventory.rs.
use remotehub.Base.{
  Bool, true, false, ◌&&◌, not, List, [], ◌∷◌, map, ◌==◌, all, contains, arith, ◌≡◌, refl, ap,
  Bool-cases, inl, inr, ==_refl, eq_of_==,
}
use remotehub.Base.Text.{Text, text_eq}
use remotehub.Base.Sort.{distinct}
use remotehub.Connector.Inventory.Defs.{
  Device, Inventory, ok, remove_first, remove_device, without, leave_group, remove_group,
}
use remotehub.Connector.Inventory.Valid.{device_name, knows_groups, has_ports, IsValid}

remove_first-contains :
    (n : Text) (ds : List Device) (i : Text)
    → contains (map device_name ds) i ≡ false
    → contains (map device_name (remove_first n ds)) i ≡ false
remove_first-contains n [] i h = refl
remove_first-contains n (d ∷ ds) i h = ground (arith, remove_first-contains n ds i)

remove_first-distinct :
    (n : Text) (ds : List Device)
    → distinct (map device_name ds) ≡ true
    → distinct (map device_name (remove_first n ds)) ≡ true
remove_first-distinct n [] h = refl
remove_first-distinct n (d ∷ ds) h =
    ground (arith, remove_first-distinct n ds, remove_first-contains n ds d.name)

remove_first-all :
    (p : Device → Bool) (n : Text) (ds : List Device)
    → all p ds ≡ true
    → all p (remove_first n ds) ≡ true
remove_first-all p n [] h = refl
remove_first-all p n (d ∷ ds) h = ground (arith, remove_first-all p n ds)

pub remove_device_inv :
    (inventory : Inventory) (name : Text) {after : Inventory}
    → remove_device inventory name ≡ ok after
    → after ≡ record inventory { devices = remove_first name inventory.devices }
unfolding remove_device
remove_device_inv inventory name h = ground arith

pub remove_device-IsValid :
    (inventory after : Inventory) (name : Text)
    → IsValid inventory
    → remove_device inventory name ≡ ok after
    → IsValid after
remove_device-IsValid inventory after name v h = rw (remove_device_inv inventory name h) (record {
  names = remove_first-distinct name inventory.devices v.names;
  group_names = v.group_names;
  ports = remove_first-all has_ports name inventory.devices v.ports;
  groups_known =
      remove_first-all (knows_groups inventory.groups) name inventory.devices v.groups_known;
})

pub without-contains :
    (name : Text) (gs : List Text) (g : Text)
    → contains (without name gs) g ≡ (contains gs g && not (g == name))
without-contains name [] g = refl
without-contains name (x ∷ gs) g = elim (Bool-cases (x == g)) [
  | inl same ↦
      let e : x ≡ g = eq_of_== same in rw e (ground (arith, without-contains name gs g, ==_refl g))
  | inr other ↦ ground (arith, without-contains name gs g)
]

without-distinct :
    (name : Text) (gs : List Text) → distinct gs ≡ true → distinct (without name gs) ≡ true
without-distinct name [] h = refl
without-distinct name (x ∷ gs) h =
    ground (arith, without-distinct name gs, without-contains name gs x)

leave_group-knows :
    (name : Text) (groups gs : List Text)
    → all (λ g. contains groups g) gs ≡ true
    → all (λ g. contains (without name groups) g) (without name gs) ≡ true
leave_group-knows name groups [] h = refl
leave_group-knows name groups (g ∷ gs) h =
    ground (arith, leave_group-knows name groups gs, without-contains name groups g)

leave_group-all :
    (name : Text) (groups : List Text) (ds : List Device)
    → all (knows_groups groups) ds ≡ true
    → all (knows_groups (without name groups)) (map (leave_group name) ds) ≡ true
leave_group-all name groups [] h = refl
leave_group-all name groups (d ∷ ds) h =
    ground (arith, leave_group-all name groups ds, leave_group-knows name groups d.groups)

pub leave_group-names :
    (name : Text) (ds : List Device)
    → map device_name (map (leave_group name) ds) ≡ map device_name ds
leave_group-names name [] = refl
leave_group-names name (d ∷ ds) = ap (λ ns. d.name ∷ ns) (leave_group-names name ds)

leave_group-ports :
    (name : Text) (ds : List Device) → all has_ports (map (leave_group name) ds) ≡ all has_ports ds
leave_group-ports name [] = refl
leave_group-ports name (d ∷ ds) = ap (λ b. has_ports d && b) (leave_group-ports name ds)

pub remove_group_inv :
    (inventory : Inventory) (name : Text) {after : Inventory}
    → remove_group inventory name ≡ ok after
    → (after.devices ≡ map (leave_group name) inventory.devices)
      × (after.groups ≡ without name inventory.groups)
unfolding remove_group
remove_group_inv inventory name h = ground arith

pub remove_group-IsValid :
    (inventory after : Inventory) (name : Text)
    → IsValid inventory
    → remove_group inventory name ≡ ok after
    → IsValid after
remove_group-IsValid inventory after name v h =
    let (devices, groups) = remove_group_inv inventory name h in
    record {
      names = rw (devices, leave_group-names) v.names;
      group_names = rw groups (without-distinct name inventory.groups v.group_names);
      ports = rw (devices, leave_group-ports) v.ports;
      groups_known =
          rw (devices, groups)
            (leave_group-all name inventory.groups inventory.devices v.groups_known);
    }
