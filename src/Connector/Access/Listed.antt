-- ===== src/Connector/Access/Listed.antt =====
-- The access names only devices and groups of the list (crates/connector/src/access.rs), whatever is
-- changed and whichever files cannot be read or written.
use mathlib.Core.List.{map-append}
use remotehub.Base.{
  Bool, true, false, some, List, [], ◌∷◌, map, ◌==◌, contains, contains-append, arith, ◌≡◌, refl,
  Bool-cases, inl, inr, nat_eq, subst, find, eq_of_==,
}
use remotehub.Base.Map.{get, remove, get-remove}
use remotehub.Base.BTreeMap.{get-put, nat_order, text_order}
use remotehub.Base.Text.{Text, text_eq}
use remotehub.Base.Sort.{contains-sort_by_key}
use remotehub.Connector.Inventory.Defs.{
  Device, Inventory, Result, device, has_group, remove_first, add_device, add_group, remove_device,
  remove_group,
}
use remotehub.Connector.Inventory.Valid.{device_name, add_device-Addable}
use remotehub.Connector.Inventory.Groups.{add_group_inv, sorted_groups-contains}
use remotehub.Connector.Inventory.Removal.{
  remove_device_inv, remove_group_inv, without-contains, leave_group-names,
}
use remotehub.Connector.Access.Defs.{
  Scope, network, device_scope, group_scope, request_scope, Stored, AccessFile, set_stored, is_some,
}
use remotehub.Connector.Access.Changes.{is_known}

abbrev pub lists_device : Inventory → Text → Bool
lists_device list name = contains (map device_name list.devices) name

abbrev pub lists_group : Inventory → Text → Bool
lists_group list name = contains list.groups name

-- Every device and every group that the access file names is on the list.
pub record IsListed (file : AccessFile) (list : Inventory) : Type 0 where
  pub devices :
      (name : Text) (s : Stored) → get file.devices name ≡ some s → lists_device list name ≡ true
  pub groups :
      (name : Text) (s : Stored) → get file.groups name ≡ some s → lists_group list name ≡ true

found-listed :
    (ds : List Device) (n : Text)
    → is_some (find (λ d. d.name == n) ds) ≡ true
    → contains (map device_name ds) n ≡ true
found-listed [] n h = cc
found-listed (d ∷ ds) n h = ground (arith, found-listed ds n)

-- The access file names what it named before, or what is on the list.
pub IsListed-set_stored :
    (file : AccessFile) (list : Inventory) (scope : Scope) (stored : Stored)
    → is_known list file scope ≡ true
    → IsListed file list
    → IsListed (set_stored file scope stored) list
unfolding is_known set_stored device has_group
IsListed-set_stored file list network stored k l = record { devices = l.devices; groups = l.groups }
IsListed-set_stored file list (device_scope n) stored k l = record {
  devices = λ name s e. elim (Bool-cases (n == name)) [
    | inl same ↦
        subst (λ z. lists_device list z ≡ true) (eq_of_== same) (found-listed list.devices n k)
    | inr other ↦ l.devices name s (ground (arith, get-put file.devices n name stored))
  ];
  groups = l.groups;
}
IsListed-set_stored file list (group_scope n) stored k l = record {
  devices = l.devices;
  groups = λ name s e. elim (Bool-cases (n == name)) [
    | inl same ↦ subst (λ z. lists_group list z ≡ true) (eq_of_== same) k
    | inr other ↦ l.groups name s (ground (arith, get-put file.groups n name stored))
  ];
}
IsListed-set_stored file list (request_scope id) stored k l = record {
  devices = l.devices;
  groups = l.groups;
}

-- More is on the list.
IsListed-more :
    (file : AccessFile) (list more : Inventory)
    → ((n : Text) → lists_device list n ≡ true → lists_device more n ≡ true)
    → ((n : Text) → lists_group list n ≡ true → lists_group more n ≡ true)
    → IsListed file list
    → IsListed file more
IsListed-more file list more d g l = record {
  devices = λ name s e. d name (l.devices name s e);
  groups = λ name s e. g name (l.groups name s e);
}

-- The access file names less.
pub IsListed-fewer_devices :
    (file : AccessFile) (list : Inventory) (name : Text)
    → IsListed file list
    → IsListed (record file { devices = remove file.devices name }) list
IsListed-fewer_devices file list name l = record {
  devices = λ n s e. l.devices n s (ground (arith, get-remove file.devices name n));
  groups = l.groups;
}

pub IsListed-fewer_groups :
    (file : AccessFile) (list : Inventory) (name : Text)
    → IsListed file list
    → IsListed (record file { groups = remove file.groups name }) list
IsListed-fewer_groups file list name l = record {
  devices = l.devices;
  groups = λ n s e. l.groups n s (ground (arith, get-remove file.groups name n));
}

remove_first-lists :
    (name : Text) (ds : List Device) (n : Text)
    → (name == n) ≡ false
    → contains (map device_name ds) n ≡ true
    → contains (map device_name (remove_first name ds)) n ≡ true
remove_first-lists name [] n o h = h
remove_first-lists name (d ∷ ds) n o h = ground (
  arith,
  remove_first-lists name ds n,
  text_eq.test_iff d.name name,
  text_eq.test_iff d.name n,
  text_eq.test_iff name n,
)

pub IsListed-remove_device :
    (file : AccessFile) (list after : Inventory) (name : Text)
    → remove_device list name ≡ Result.ok after
    → IsListed file list
    → IsListed (record file { devices = remove file.devices name }) after
IsListed-remove_device file list after name r l = rw (remove_device_inv list name r) (record {
  devices = λ n s e. elim (Bool-cases (name == n)) [
    | inl same ↦ ground (arith, get-remove file.devices name n)
    | inr other ↦
        remove_first-lists name list.devices n other
          (l.devices n s (ground (arith, get-remove file.devices name n)))
  ];
  groups = l.groups;
})

pub IsListed-remove_group :
    (file : AccessFile) (list after : Inventory) (name : Text)
    → remove_group list name ≡ Result.ok after
    → IsListed file list
    → IsListed (record file { groups = remove file.groups name }) after
IsListed-remove_group file list after name r l =
    let (devices, groups) = remove_group_inv list name r in
    record {
      devices = λ n s e. rw (devices, leave_group-names) (l.devices n s e);
      groups = λ n s e. rw groups (
          ground (
            arith,
            without-contains name list.groups n,
            l.groups n s,
            get-remove file.groups name n,
            text_eq.test_iff n name,
            text_eq.test_iff name n,
          ));
    }

module _ (lower : Text → Text) where
  pub IsListed-add_device :
      (file : AccessFile) (list after : Inventory) (d : Device)
      → add_device lower list d ≡ Result.ok after
      → IsListed file list
      → IsListed file after
  IsListed-add_device file list after d r l =
      let a = add_device-Addable lower list d r in
      IsListed-more file list after
        (λ n m. rw (a.sorted, contains-sort_by_key, map-append, contains-append, m) refl)
        (λ n m. rw a.same_groups m) l

  pub IsListed-add_group :
      (file : AccessFile) (list after : Inventory) (name : Text)
      → add_group lower list name ≡ Result.ok after
      → IsListed file list
      → IsListed file after
  IsListed-add_group file list after name r l =
      let (fresh, devices, groups) = add_group_inv lower list name r in
      IsListed-more file list after (λ n m. rw devices m)
        (λ n m. rw (groups, sorted_groups-contains lower list.groups name n, m) refl) l
