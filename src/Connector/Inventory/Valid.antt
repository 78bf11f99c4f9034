-- ===== src/Connector/Inventory/Valid.antt =====
-- What stays true of the customer's list in crates/connector/src/inventory.rs, and a device added to it.
use mathlib.Core.List.{map-append}
use remotehub.Base.{
  Bool, true, false, ◌&&◌, not, none, List, [], ◌∷◌, ◌++◌, map, ◌==◌, all, find, is_empty, contains,
  contains-append, arith, ◌≡◌, refl, ap, ◌∙◌, HasEq,
}
use remotehub.Base.Text.{Text, text_eq, text_before}
use remotehub.Base.Sort.{sort_by_key, distinct, all-sort_by_key, distinct-sort_by_key}
use remotehub.Connector.Inventory.Defs.{Device, Inventory, ok, device, add_device}

abbrev pub device_name : Device → Text
device_name d = d.name

-- The groups of a device are on the list.
abbrev pub knows_groups : List Text → Device → Bool
knows_groups groups d = all (λ g. contains groups g) d.groups

abbrev pub has_ports : Device → Bool
has_ports d = not (is_empty d.ports)

-- No two devices and no two groups share a name, every device has a port, and its groups are on the
-- list.
pub record IsValid (inventory : Inventory) : Type 0 where
  pub names : distinct (map device_name inventory.devices) ≡ true
  pub group_names : distinct inventory.groups ≡ true
  pub ports : all has_ports inventory.devices ≡ true
  pub groups_known : all (knows_groups inventory.groups) inventory.devices ≡ true

pub distinct-append_one {ℓ} :
    {A : Type ℓ} ⦃e : HasEq A⦄ (xs : List A) (x : A)
    → distinct (xs ++ x ∷ []) ≡ (not (contains xs x) && distinct xs)
distinct-append_one [] x = refl
distinct-append_one ⦃e⦄ (y ∷ xs) x =
    ground (
      arith,
      distinct-append_one xs x,
      contains-append xs (x ∷ []) y,
      e.test_iff x y,
      e.test_iff y x,
    )

all-append_one {ℓ} :
    {A : Type ℓ} (p : A → Bool) (xs : List A) (x : A) → all p (xs ++ x ∷ []) ≡ (all p xs && p x)
all-append_one p [] x = ground arith
all-append_one p (y ∷ xs) x = ground (arith, all-append_one p xs x)

pub device-contains :
    (ds : List Device) (n : Text)
    → find (λ d. d.name == n) ds ≡ none
    → contains (map device_name ds) n ≡ false
device-contains [] n h = refl
device-contains (d ∷ ds) n h = ground (arith, device-contains ds n)

all-find {ℓ} :
    {A : Type ℓ} (p : A → Bool) (xs : List A) → find (λ x. not (p x)) xs ≡ none → all p xs ≡ true
all-find p [] h = refl
all-find p (x ∷ xs) h = ground (arith, all-find p xs)

map-sort_names :
    (lower : Text → Text) (ds : List Device) (d : Device)
    → distinct (map device_name (sort_by_key text_before (λ x. lower x.name) (ds ++ d ∷ [])))
      ≡ (not (contains (map device_name ds) d.name) && distinct (map device_name ds))
map-sort_names lower ds d =
    distinct-sort_by_key text_before (λ x. lower x.name) device_name (ds ++ d ∷ [])
    ∙ (ap {A = List Text} (distinct {A = Text}) (map-append device_name ds (d ∷ []))
        ∙ distinct-append_one (map device_name ds) d.name)

module _ (lower : Text → Text) where
  -- What a device must meet to be added, and the list that results.
  pub record Addable (inventory : Inventory) (d : Device) (after : Inventory) : Type 0 where
    pub new_name : device inventory d.name ≡ none
    pub ports : has_ports d ≡ true
    pub groups_known : knows_groups inventory.groups d ≡ true
    pub same_groups : after.groups ≡ inventory.groups
    pub sorted :
        after.devices ≡ sort_by_key text_before (λ x. lower x.name) (inventory.devices ++ d ∷ [])

  pub add_device-Addable :
      (inventory : Inventory) (d : Device) {after : Inventory}
      → add_device lower inventory d ≡ ok after
      → Addable inventory d after
  unfolding add_device
  add_device-Addable inventory d h =
      ground (arith, all-find (λ (g : Text). contains inventory.groups g) d.groups)

  pub add_device-IsValid :
      (inventory after : Inventory) (d : Device)
      → IsValid inventory
      → Addable inventory d after
      → IsValid after
  unfolding device
  add_device-IsValid inventory after d v a = record {
    names =
        rw
          (
            a.sorted,
            map-sort_names lower inventory.devices d,
            device-contains inventory.devices d.name a.new_name,
          )
          v.names;
    group_names = rw a.same_groups v.group_names;
    ports = rw (a.sorted, all-sort_by_key, all-append_one, v.ports) a.ports;
    groups_known =
        rw (a.sorted, a.same_groups, all-sort_by_key, all-append_one, v.groups_known)
          a.groups_known;
  }
