-- ===== src/Connector/Sample.antt =====
-- The customer of the tests: a list of two devices in one group.
use remotehub.Base.{
  ℕ, Bool, true, Option, none, some, List, ◌==◌, ◌+◌, ◌&&◌, [], ◌∷◌, map, if◌then◌else◌, ltb,
  nat_eq,
}
use remotehub.Base.BTreeMap.{nat_order, text_order}
use remotehub.Base.Text.{Text, text, text_eq}
use remotehub.Connector.Network.{contains_ip, masked}
use remotehub.Connector.Inventory.Defs.{
  IpAddr, v6, Address, Ports, v4, range, host, Device, Inventory,
}
use remotehub.Connector.Access.Defs.{
  Uuid, open_until, web, command_line, no_access, RequestTarget, AccessFile, Snapshot,
}
use remotehub.Connector.Access.Store.{Dir, Io}
use remotehub.Base.Map.{get}
use remotehub.Base.Text.{trim}
use remotehub.Base.Sort.{sort_by_key}
use remotehub.Connector.Inventory.Defs.{
  contains_port, valid_name, device, has_group, add_device, remove_device, add_group, remove_group,
  members,
}
use remotehub.Connector.Access.Defs.{
  is_open, closes_at, stored_at, set_stored, later, latest_end, network_open, network_until,
  device_until, open_devices, open_requests,
}
use remotehub.Connector.Access.Queries.{
  covers, grant_devices, until_devices, until_targets, until_requests, connection_until, permitted,
}
use remotehub.Connector.Access.Permit.{open_for}
use remotehub.Connector.Access.Store.{load_inventory, load_access, save_access, append_event}
use remotehub.Connector.Access.Changes.{is_known, change, remove_listed_group}

-- What the tests evaluate.
unfoldable pub list_code : Unit {0}
unfolding contains_port valid_name device has_group add_device remove_device add_group remove_group
    members trim sort_by_key
list_code = tt

unfoldable pub access_code : Unit {0}
unfolding list_code contains_ip masked get is_open closes_at stored_at set_stored later latest_end
    network_open network_until device_until open_devices open_requests covers grant_devices
    until_devices until_targets until_requests connection_until permitted open_for load_inventory
    load_access save_access append_event is_known change remove_listed_group
access_code = tt

-- `str::to_lowercase`, on the ASCII letters.
abbrev pub lower : Text → Text
lower = map (λ c. if ltb 64 c && ltb c 91 then c + 32 else c)

abbrev pub plc : Device
plc = record {
  name = text "PLC";
  address = host (text "plc.local");
  ports = record { first = 22; last = 22 } ∷ record { first = 5900; last = 5910 } ∷ [];
  groups = text "line" ∷ [];
}

abbrev pub camera : Device
camera = record {
  name = text "camera";
  address = range (record { address = v4 10; prefix = 32 });
  ports = record { first = 443; last = 443 } ∷ [];
  groups = [];
}

abbrev pub customer_list : Inventory
customer_list = record { devices = camera ∷ plc ∷ []; groups = text "line" ∷ text "spare" ∷ [] }

abbrev pub only_camera : Inventory
only_camera = record { devices = camera ∷ []; groups = text "line" ∷ text "spare" ∷ [] }

-- What is open to the customer: the group `line` until 1000, a request until 2000.
abbrev pub asked : RequestTarget
asked = record { name = text "panel"; host = text "10"; port = 80 }

abbrev pub access : AccessFile
access = record {
  network = no_access;
  devices =
      (
        text "camera",
        record {
          access = open_until (some 500);
          changed_by = some command_line;
          changed_at = some 0;
        },
      )
      ∷ [];
  groups =
      (
        text "line",
        record {
          access = open_until (some 1000);
          changed_by = some (web (text "ann"));
          changed_at = some 0;
        },
      )
      ∷ [];
  requests =
      (
        77,
        record {
          requester = text "bob";
          reason = text "update";
          targets = asked ∷ [];
          stored = record {
            access = open_until (some 2000);
            changed_by = some (web (text "ann"));
            changed_at = some 0;
          };
        },
      )
      ∷ [];
}

abbrev pub snapshot : Snapshot
snapshot = record { access = access; inventory = customer_list }

abbrev pub ip_number : IpAddr → ℕ
ip_number (v4 n) = n
ip_number (v6 n) = n

-- One name in the network's DNS, and an address that is its own text.
abbrev pub resolve : Text → List IpAddr
resolve name = if name == text "plc.local" then v4 11 ∷ [] else []

abbrev pub same_ip : IpAddr → IpAddr → Bool
same_ip a b = ip_number a == ip_number b

abbrev pub same_host : Text → Text → Bool
same_host a b = a == b

abbrev pub parse_address : Text → Option Address
parse_address t =
    if t == text "10" then some (range (record { address = v4 10; prefix = 32 })) else none

-- How the connector writes what it names is of no consequence here.
abbrev pub show_uuid : Uuid → Text
show_uuid id = id ∷ []

abbrev pub show_address : Address → Text
show_address a = []

abbrev pub show_ports : List Ports → Text
show_ports ports = []

abbrev pub dir : Dir
dir = record { access = access; inventory = customer_list; journal = [] }

abbrev pub all_works : Io
all_works = record {
  reads_inventory = true;
  reads_access = true;
  writes_access = true;
  writes_inventory = true;
  writes_journal = true;
  reads_again = true;
  now = 1_500_000_000;
  journal_now = 1_600_000_000;
}
