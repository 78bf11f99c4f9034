-- ===== src/Connector/Inventory/Defs.antt =====
-- crates/connector/src/inventory.rs: the customer's own list of devices and groups. `str::to_lowercase`
-- is a parameter, `lower`: the tables of Unicode are not part of the repository.
use remotehub.Base.{
  ℕ, Bool, ◌&&◌, not, Option, none, some, List, [], ◌∷◌, ◌++◌, map, if◌then◌else◌, ◌==◌, any, find,
  filter, is_empty, length, contains,
}
use remotehub.Base.Text.{Text, text_eq, text_before, is_control, trim, within}
use remotehub.Base.Sort.{sort_by_key}

pub data IpAddr : Type 0 where
  v4 : ℕ → IpAddr
  v6 : ℕ → IpAddr

-- crates/connector/src/network.rs
pub record Network : Type 0 where
  pub address : IpAddr
  pub prefix : ℕ

pub data Address : Type 0 where
  range : Network → Address
  host : Text → Address

pub record Ports : Type 0 where
  pub first : ℕ
  pub last : ℕ

pub record Device : Type 0 where
  pub name : Text
  pub address : Address
  pub ports : List Ports
  pub groups : List Text

pub record Inventory : Type 0 where
  pub devices : List Device
  pub groups : List Text

pub data InventoryError : Type 0 where
  invalid_name : InventoryError
  invalid_address : Text → InventoryError
  invalid_ports : Text → InventoryError
  no_ports : InventoryError
  exists_already : Text → InventoryError
  unknown : Text → InventoryError

pub data Result {ℓ} (A : Type ℓ) : Type ℓ where
  ok : A → Result A
  err : InventoryError → Result A

abbrev pub no_inventory : Inventory
no_inventory = record { devices = []; groups = [] }

unfoldable pub contains_port : Ports → ℕ → Bool
contains_port ports port = within ports.first ports.last port

unfoldable pub valid_name : Text → Result Text
unfolding trim
valid_name name =
    if within 1 64 (length (trim name)) && not (any is_control (trim name))
    then ok (trim name)
    else err invalid_name

unfoldable pub device : Inventory → Text → Option Device
device inventory name = find (λ d. d.name == name) inventory.devices

unfoldable pub has_group : Inventory → Text → Bool
has_group inventory name = contains inventory.groups name

module _ (lower : Text → Text) where
  -- The guards of `add_device`, in their order, then the push and the sort.
  unfoldable pub add_device : Inventory → Device → Result Inventory
  unfolding device has_group
  add_device inventory new_device = elim (device inventory new_device.name) [
    | some _ ↦ err (exists_already new_device.name)
    | none ↦
        if is_empty new_device.ports
        then err no_ports
        else elim (find (λ g. not (has_group inventory g)) new_device.groups) [
          | some group ↦ err (unknown group)
          | none ↦ ok (record inventory {
            devices =
                sort_by_key text_before (λ d. lower d.name) (inventory.devices ++ new_device ∷ []);
          })
        ]
  ]

  unfoldable pub add_group : Inventory → Text → Result Inventory
  unfolding has_group
  add_group inventory name =
      if has_group inventory name
      then err (exists_already name)
      else ok (record inventory {
        groups = sort_by_key text_before lower (inventory.groups ++ name ∷ []);
      })

-- The first device of the name goes: its place is found, and the device there removed.
abbrev pub remove_first : Text → List Device → List Device
remove_first name [] = []
remove_first name (d ∷ ds) =
    let rest = d ∷ remove_first name ds in if d.name == name then ds else rest

unfoldable pub remove_device : Inventory → Text → Result Inventory
unfolding device
remove_device inventory name = elim (device inventory name) [
  | none ↦ err (unknown name)
  | some _ ↦ ok (record inventory { devices = remove_first name inventory.devices })
]

abbrev pub without : Text → List Text → List Text
without name = filter (λ g. not (g == name))

abbrev pub leave_group : Text → Device → Device
leave_group name d = record d { groups = without name d.groups }

unfoldable pub remove_group : Inventory → Text → Result Inventory
unfolding has_group
remove_group inventory name =
    if not (has_group inventory name)
    then err (unknown name)
    else ok (record {
      devices = map (leave_group name) inventory.devices;
      groups = without name inventory.groups;
    })

unfoldable pub members : Inventory → Text → List Device
members inventory group = filter (λ d. contains d.groups group) inventory.devices
