-- ===== src/Connector/Access/Always.antt =====
-- Every operation of crates/connector/src/access.rs, with any outcome: what it leaves in the data
-- directory, and that the access keeps to the list.
use remotehub.Base.{true, some, List, arith, ◌≡◌, sym, ap, ◌∙◌, inl, inr, ◌⊎◌}
use remotehub.Base.Map.{get, remove}
use remotehub.Base.Text.{Text, text_eq, trim}
use remotehub.Connector.Inventory.Defs.{
  Address, Ports, Device, ok, add_device, add_group, remove_device, remove_group, valid_name,
}
use remotehub.Connector.Access.Defs.{
  Time, Uuid, Access, Changer, Scope, set_stored, CustomerRequest,
}
use remotehub.Connector.Access.Store.{Dir, Io}
use remotehub.Connector.Access.Changes.{
  seconds, whole_seconds, is_known, change, approve, refuse, received, add_listed_device,
  remove_listed_device, add_listed_group, remove_listed_group,
}
use remotehub.Connector.Access.Listed.{
  IsListed, IsListed-set_stored, IsListed-fewer_devices, IsListed-fewer_groups,
  IsListed-remove_device, IsListed-remove_group, IsListed-add_device, IsListed-add_group,
}

module _ (show_uuid : Uuid → Text) (show_address : Address → Text) (show_ports : List Ports → Text)
    (lower : Text → Text) where
  -- One operation, with any outcome.
  pub data Changed (d d' : Dir) : Type 0 where
    access_changed :
        (io : Io) (scope : Scope) (access : Access) (by : Changer)
        → d' ≡ (change show_uuid show_address show_ports lower io scope access by d).1
        → Changed d d'
    request_approved :
        (io : Io) (request : CustomerRequest) (until : Time) (by : Changer)
        → d' ≡ (approve show_uuid show_address show_ports lower io request until by d).1
        → Changed d d'
    request_refused :
        (io : Io) (request : CustomerRequest) (by : Changer)
        → d' ≡ (refuse show_uuid show_address show_ports lower io request by d).1
        → Changed d d'
    request_received :
        (io : Io) (request : CustomerRequest)
        → d' ≡ (received show_uuid show_address show_ports lower io request d).1
        → Changed d d'
    device_added :
        (io : Io) (new_device : Device) (by : Changer)
        → d' ≡ (add_listed_device show_uuid show_address show_ports lower io new_device by d).1
        → Changed d d'
    device_removed :
        (io : Io) (name : Text) (by : Changer)
        → d' ≡ (remove_listed_device show_uuid show_address show_ports lower io name by d).1
        → Changed d d'
    group_added :
        (io : Io) (name : Text) (by : Changer)
        → d' ≡ (add_listed_group show_uuid show_address show_ports lower io name by d).1
        → Changed d d'
    group_removed :
        (io : Io) (name : Text) (by : Changer)
        → d' ≡ (remove_listed_group show_uuid show_address show_ports lower io name by d).1
        → Changed d d'

  abbrev pub Within : Dir → Type 0
  Within d = IsListed d.access d.inventory

  pub change-IsListed :
      (io : Io) (scope : Scope) (access : Access) (by : Changer) (d : Dir)
      → Within d
      → Within (change show_uuid show_address show_ports lower io scope access by d).1
  change-IsListed io scope access by d l =
      let (list, cases) = change-cases io scope access by d in
      elim cases [
        | inl same ↦ rw (list, same) l
        | inr (known, written) ↦
            rw (list, written) (IsListed-set_stored d.access d.inventory scope _ known l)
      ]
    where
      change-cases :
          (io : Io) (scope : Scope) (access : Access) (by : Changer) (d : Dir)
          → let d' = (change show_uuid show_address show_ports lower io scope access by d).1 in
            (d'.inventory ≡ d.inventory)
            × ((d'.access ≡ d.access)
                ⊎ ((is_known d.inventory d.access scope ≡ true)
                    × (d'.access
                        ≡ set_stored d.access scope (record {
                          access = whole_seconds access;
                          changed_by = some by;
                          changed_at = some (seconds io.now);
                        }))))
      change-cases io scope access by d = unfold change in ground arith

  -- Approving a request, or only recording it, leaves the devices, the groups and the list.
  approve-same :
      (io : Io) (request : CustomerRequest) (until : Time) (by : Changer) (d : Dir)
      → let d' = (approve show_uuid show_address show_ports lower io request until by d).1 in
        (d'.inventory ≡ d.inventory)
        × (d'.access.devices ≡ d.access.devices)
        × (d'.access.groups ≡ d.access.groups)
  unfolding approve
  approve-same io request until by d = ground arith

  add_device-cases :
      (io : Io) (new_device : Device) (by : Changer) (d : Dir)
      → let d' = (add_listed_device show_uuid show_address show_ports lower io new_device by d).1 in
        (d'.access ≡ d.access)
        × ((d'.inventory ≡ d.inventory)
            ⊎ (add_device lower d.inventory new_device ≡ ok d'.inventory))
  unfolding add_listed_device
  add_device-cases io new_device by d = ground arith

  remove_device-cases :
      (io : Io) (name : Text) (by : Changer) (d : Dir)
      → let d' = (remove_listed_device show_uuid show_address show_ports lower io name by d).1 in
        ((d'.access ≡ d.access) × (d'.inventory ≡ d.inventory))
        ⊎ ((d'.access ≡ record d.access { devices = remove d.access.devices name })
            × ((d'.inventory ≡ d.inventory) ⊎ (remove_device d.inventory name ≡ ok d'.inventory)))
  unfolding remove_listed_device
  remove_device-cases io name by d = ground arith

  add_group-cases :
      (io : Io) (name : Text) (by : Changer) (d : Dir)
      → let d' = (add_listed_group show_uuid show_address show_ports lower io name by d).1 in
        (d'.access ≡ d.access)
        × ((d'.inventory ≡ d.inventory)
            ⊎ (add_group lower d.inventory (trim name) ≡ ok d'.inventory))
  unfolding add_listed_group valid_name
  add_group-cases io name by d = ground arith

  remove_group-cases :
      (io : Io) (name : Text) (by : Changer) (d : Dir)
      → let d' = (remove_listed_group show_uuid show_address show_ports lower io name by d).1 in
        ((d'.access ≡ d.access) × (d'.inventory ≡ d.inventory))
        ⊎ ((d'.access ≡ record d.access { groups = remove d.access.groups name })
            × ((d'.inventory ≡ d.inventory) ⊎ (remove_group d.inventory name ≡ ok d'.inventory)))
  unfolding remove_listed_group
  remove_group-cases io name by d = ground arith

  refuse-same :
      (io : Io) (request : CustomerRequest) (by : Changer) (d : Dir)
      → let d' = (refuse show_uuid show_address show_ports lower io request by d).1 in
        (d'.inventory ≡ d.inventory) × (d'.access ≡ d.access)
  unfolding refuse
  refuse-same io request by d = ground arith

  received-same :
      (io : Io) (request : CustomerRequest) (d : Dir)
      → let d' = (received show_uuid show_address show_ports lower io request d).1 in
        (d'.inventory ≡ d.inventory) × (d'.access ≡ d.access)
  unfolding received
  received-same io request d = ground arith

  same-Within :
      (d d' : Dir)
      → d'.inventory ≡ d.inventory
      → d'.access.devices ≡ d.access.devices
      → d'.access.groups ≡ d.access.groups
      → Within d
      → Within d'
  same-Within d d' list devices groups l = record {
    devices = λ n s e. rw list (l.devices n s (ap (λ m. get m n) (sym devices) ∙ e));
    groups = λ n s e. rw list (l.groups n s (ap (λ m. get m n) (sym groups) ∙ e));
  }

  add_device-IsListed :
      (io : Io) (new_device : Device) (by : Changer) (d : Dir)
      → Within d
      → Within (add_listed_device show_uuid show_address show_ports lower io new_device by d).1
  add_device-IsListed io new_device by d l =
      let (file, cases) = add_device-cases io new_device by d in
      elim cases [
        | inl same ↦ rw (file, same) l
        | inr added ↦ rw file (IsListed-add_device lower d.access d.inventory _ new_device added l)
      ]

  add_group-IsListed :
      (io : Io) (name : Text) (by : Changer) (d : Dir)
      → Within d
      → Within (add_listed_group show_uuid show_address show_ports lower io name by d).1
  add_group-IsListed io name by d l =
      let (file, cases) = add_group-cases io name by d in
      elim cases [
        | inl same ↦ rw (file, same) l
        | inr added ↦ rw file (IsListed-add_group lower d.access d.inventory _ (trim name) added l)
      ]

  remove_device-IsListed :
      (io : Io) (name : Text) (by : Changer) (d : Dir)
      → Within d
      → Within (remove_listed_device show_uuid show_address show_ports lower io name by d).1
  remove_device-IsListed io name by d l = elim (remove_device-cases io name by d) [
    | inl (file, list) ↦ rw (file, list) l
    | inr (file, inl same) ↦ rw (file, same) (IsListed-fewer_devices d.access d.inventory name l)
    | inr (file, inr gone) ↦ rw file (IsListed-remove_device d.access d.inventory _ name gone l)
  ]

  remove_group-IsListed :
      (io : Io) (name : Text) (by : Changer) (d : Dir)
      → Within d
      → Within (remove_listed_group show_uuid show_address show_ports lower io name by d).1
  remove_group-IsListed io name by d l = elim (remove_group-cases io name by d) [
    | inl (file, list) ↦ rw (file, list) l
    | inr (file, inl same) ↦ rw (file, same) (IsListed-fewer_groups d.access d.inventory name l)
    | inr (file, inr gone) ↦ rw file (IsListed-remove_group d.access d.inventory _ name gone l)
  ]

  approve-IsListed :
      (io : Io) (request : CustomerRequest) (until : Time) (by : Changer) (d : Dir)
      → Within d
      → Within (approve show_uuid show_address show_ports lower io request until by d).1
  approve-IsListed io request until by d l =
      let (list, devices, groups) = approve-same io request until by d in
      same-Within d (approve show_uuid show_address show_ports lower io request until by d).1 list
        devices groups l

  -- Whichever operation is run and whichever of its reads and writes fail: if the access names only
  -- devices and groups of the list before it, it does so after it.
  pub Changed-IsListed :
      {d d' : Dir} → Changed d d' → IsListed d.access d.inventory → IsListed d'.access d'.inventory
  Changed-IsListed {d = d} (access_changed io scope access by e) l =
      rw e (change-IsListed io scope access by d l)
  Changed-IsListed {d = d} (request_approved io request until by e) l =
      rw e (approve-IsListed io request until by d l)
  Changed-IsListed {d = d} (request_refused io request by e) l =
      let (list, file) = refuse-same io request by d in rw (e, list, file) l
  Changed-IsListed {d = d} (request_received io request e) l =
      let (list, file) = received-same io request d in rw (e, list, file) l
  Changed-IsListed {d = d} (device_added io new_device by e) l =
      rw e (add_device-IsListed io new_device by d l)
  Changed-IsListed {d = d} (device_removed io name by e) l =
      rw e (remove_device-IsListed io name by d l)
  Changed-IsListed {d = d} (group_added io name by e) l = rw e (add_group-IsListed io name by d l)
  Changed-IsListed {d = d} (group_removed io name by e) l =
      rw e (remove_group-IsListed io name by d l)
