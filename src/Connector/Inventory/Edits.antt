-- ===== src/Connector/Inventory/Edits.antt =====
-- Any changes of the customer's list in crates/connector/src/inventory.rs, one after another.
use remotehub.Base.{◌≡◌, refl}
use remotehub.Base.Text.{Text, text_eq}
use remotehub.Connector.Inventory.Defs.{
  no_inventory, Device, Inventory, ok, add_device, add_group, remove_device, remove_group,
}
use remotehub.Connector.Inventory.Valid.{IsValid, add_device-IsValid, add_device-Addable}
use remotehub.Connector.Inventory.Groups.{add_group-IsValid}
use remotehub.Connector.Inventory.Removal.{remove_device-IsValid, remove_group-IsValid}

module _ (lower : Text → Text) where
  -- One change of the list that succeeds.
  pub data Edited (before after : Inventory) : Type 0 where
    device_added : (d : Device) → add_device lower before d ≡ ok after → Edited before after
    device_removed : (name : Text) → remove_device before name ≡ ok after → Edited before after
    group_added : (name : Text) → add_group lower before name ≡ ok after → Edited before after
    group_removed : (name : Text) → remove_group before name ≡ ok after → Edited before after

  pub Edited-IsValid :
      {before after : Inventory} → Edited before after → IsValid before → IsValid after
  Edited-IsValid {before} {after} (device_added d e) v =
      add_device-IsValid lower before after d v (add_device-Addable lower before d e)
  Edited-IsValid {before} {after} (device_removed name e) v =
      remove_device-IsValid before after name v e
  Edited-IsValid {before} {after} (group_added name e) v =
      add_group-IsValid lower before after name v e
  Edited-IsValid {before} {after} (group_removed name e) v =
      remove_group-IsValid before after name v e

  -- The lists that changes lead to, from the empty one.
  pub data Reached : Inventory → Type 0 where
    start : Reached no_inventory
    next : {before after : Inventory} → Reached before → Edited before after → Reached after

  -- Whatever was added and removed, in any order: no two devices and no two groups share a name,
  -- every device has a port, and every group of a device is on the list.
  pub Reached-IsValid : {inventory : Inventory} → Reached inventory → IsValid inventory
  Reached-IsValid start = record {
    names = refl;
    group_names = refl;
    ports = refl;
    groups_known = refl;
  }
  Reached-IsValid (next r e) = Edited-IsValid e (Reached-IsValid r)
