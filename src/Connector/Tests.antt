-- ===== src/Connector/Tests.antt =====
-- What the operations make of the customer's list, and ports as they are written.
use remotehub.Base.{[], ◌∷◌, ◌≡◌, refl, nat_eq}
use remotehub.Base.BTreeMap.{nat_order, text_order}
use remotehub.Base.Text.{text, text_eq, trim}
use remotehub.Base.Sort.{sort_by_key}
use remotehub.Connector.Inventory.Defs.{
  Ports, Inventory, ok, err, contains_port, valid_name, device, has_group, add_device,
  remove_device, add_group, remove_group, members, unknown, exists_already, no_ports,
}
use remotehub.Connector.Inventory.Valid.{IsValid}
use remotehub.Connector.Inventory.Edits.{start, next, group_added, Reached-IsValid}
use remotehub.Base.Text.{split_by, split_once}
use remotehub.Base.Decimal.{show, digits_from, parse_uint, parse_digits, value_from}
use remotehub.Connector.Inventory.Defs.{invalid_ports}
use remotehub.Connector.Inventory.Written.{
  read_ports, write_ports, ports_text, collect_ports, parse_list,
}
use remotehub.Connector.Inventory.WrittenPorts.{read_ports-write_ports}
use remotehub.Connector.Sample.{lower, plc, camera, customer_list, only_camera}

list_code : Unit {0}
unfolding contains_port valid_name device has_group add_device remove_device add_group remove_group
    members trim sort_by_key
list_code = tt

only_camera-IsValid : IsValid only_camera
only_camera-IsValid = record { names = refl; group_names = refl; ports = refl; groups_known = refl }

customer_list-IsValid : IsValid customer_list
customer_list-IsValid = record {
  names = refl;
  group_names = refl;
  ports = refl;
  groups_known = refl;
}

list_tests :
    (valid_name (text " PLC ") ≡ ok (text "PLC"))
    × (add_device lower customer_list plc ≡ err (exists_already (text "PLC")))
    × (add_device lower only_camera (record plc { groups = text "hall" ∷ [] })
        ≡ err (unknown (text "hall")))
    × (add_device lower only_camera (record plc { ports = [] }) ≡ err no_ports)
    × (members customer_list (text "line") ≡ plc ∷ [])
unfolding list_code
list_tests = (refl, refl, refl, refl, refl)

Reached-IsValid_example : IsValid (record { devices = []; groups = text "line" ∷ [] })
unfolding list_code
Reached-IsValid_example = Reached-IsValid lower (next start (group_added (text "line") refl))

abbrev without_line : Inventory
without_line = record {
  devices = camera ∷ record plc { groups = [] } ∷ [];
  groups = text "spare" ∷ [];
}

written_code : Unit {0}
unfolding list_code split_by split_once show digits_from parse_uint parse_digits value_from
    read_ports write_ports ports_text collect_ports parse_list
written_code = tt

written_tests :
    (parse_list (text "22, 5900-5910") ≡ ok plc.ports)
    × (ports_text plc.ports ≡ text "22, 5900-5910")
    × (parse_list (text " ,") ≡ err no_ports)
    × (parse_list (text "9-8") ≡ err (invalid_ports (text "9-8")))
    × (parse_list (text "0") ≡ err (invalid_ports (text "0")))
    × (parse_list (text "65536") ≡ err (invalid_ports (text "65536")))
unfolding written_code
written_tests = (refl, refl, refl, refl, refl, refl)

abbrev screen : Ports
screen = record { first = 5900; last = 5910 }

read_ports-write_ports_example : read_ports (write_ports screen) ≡ ok screen
read_ports-write_ports_example = read_ports-write_ports screen refl
