-- ===== src/Connector/Access/Tests.antt =====
-- What is open to the customer of crates/connector, and what the operations make of it.
use remotehub.Base.{
  true, false, none, some, ◌==◌, arith, ◌≡◌, refl, nat_eq, Bool-cases, inl, inr, subst, eq_of_==,
}
use remotehub.Base.Map.{get}
use remotehub.Base.BTreeMap.{nat_order, text_order}
use remotehub.Base.Text.{text, text_eq}
use remotehub.Connector.Inventory.Defs.{v4}
use remotehub.Connector.Access.Defs.{device_scope, closed, command_line, network, stored_at}
use remotehub.Connector.Access.Queries.{connection_until, permitted}
use remotehub.Connector.Access.Until.{covers_time}
use remotehub.Connector.Access.Permit.{open_for, permitted-eq, connection_until_exact}
use remotehub.Connector.Access.Store.{Io}
use remotehub.Connector.Access.Changes.{remove_listed_group}
use remotehub.Connector.Access.Listed.{IsListed, lists_device, lists_group}
use remotehub.Connector.Access.Always.{Changed-IsListed, group_removed}
use remotehub.Base.{◌⊎◌}
use remotehub.Connector.Access.Running.{Gate, follow_round}
use remotehub.Connector.Access.Closing.{follow_round-opens_nothing}
use remotehub.Connector.Access.RanOut.{over}
use remotehub.Connector.Access.Rounds.{Works, follow_round-closes}
use remotehub.Connector.Network.{contains_ip}
use remotehub.Connector.Sample.{
  access_code, lower, customer_list, snapshot, resolve, same_ip, same_host, parse_address,
  show_uuid, show_address, show_ports, dir, all_works,
}
use remotehub.Connector.Access.Defs.{all_stored}
use remotehub.Connector.Access.Queries.{least_end, next_end}

open_tests :
    (permitted contains_ip resolve same_ip same_host parse_address snapshot (text "11") (v4 11) 22 7
      ≡ true)
    × (permitted contains_ip resolve same_ip same_host parse_address snapshot
          (text "11")
          (v4 11)
          23
          7
        ≡ false)
    × (connection_until contains_ip resolve same_ip same_host parse_address snapshot
          (text "10")
          (v4 10)
          80
          7
        ≡ some (some 2000))
    × (connection_until contains_ip resolve same_ip same_host parse_address snapshot
          (text "10")
          (v4 10)
          443
          600
        ≡ none)
unfolding access_code
open_tests = (refl, refl, refl, refl)

permitted-eq_example :
    permitted contains_ip resolve same_ip same_host parse_address snapshot (text "11") (v4 11) 22 7
    ≡ open_for contains_ip resolve same_ip same_host parse_address (text "11") (v4 11) 22 snapshot 7
permitted-eq_example =
    permitted-eq contains_ip resolve same_ip same_host parse_address (text "11") (v4 11) 22 snapshot
      7

connection_until_exact_example :
    covers_time
      (connection_until contains_ip resolve same_ip same_host parse_address snapshot
        (text "11")
        (v4 11)
        22
        7)
      1000
    ≡ permitted contains_ip resolve same_ip same_host parse_address snapshot
        (text "11")
        (v4 11)
        22
        1000
connection_until_exact_example =
    connection_until_exact contains_ip resolve same_ip same_host parse_address (text "11") (v4 11)
      22 snapshot 7 1000 (omega arith)

abbrev full_disk : Io
full_disk = record all_works { writes_access = false }

dir-IsListed : IsListed dir.access dir.inventory
unfolding get
dir-IsListed = record {
  devices = λ name s e. elim (Bool-cases (text "camera" == name)) [
    | inl same ↦
        subst (λ n. lists_device customer_list n ≡ true) {x = text "camera"} {y = name}
          (eq_of_== same) refl
    | inr other ↦ ground (arith, other, e)
  ];
  groups = λ name s e. elim (Bool-cases (text "line" == name)) [
    | inl same ↦
        subst (λ n. lists_group customer_list n ≡ true) {x = text "line"} {y = name} (eq_of_== same)
          refl
    | inr other ↦ ground (arith, other, e)
  ];
}

Changed-IsListed_example :
    let after =
      (remove_listed_group show_uuid show_address show_ports lower all_works
        (text "line")
        command_line
        dir).1 in
    IsListed after.access after.inventory
Changed-IsListed_example =
    Changed-IsListed show_uuid show_address show_ports lower
      (group_removed all_works (text "line") command_line refl) dir-IsListed

abbrev gate : Gate
gate = record { dir = dir; state = snapshot }

follow_round-opens_nothing_example :
    let after =
      follow_round show_uuid show_address show_ports lower full_disk (λ n. full_disk) 600 gate in
    (stored_at after.dir.access network ≡ stored_at dir.access network)
    ⊎ ((stored_at after.dir.access network).access ≡ closed)
follow_round-opens_nothing_example =
    follow_round-opens_nothing show_uuid show_address show_ports lower full_disk (λ n. full_disk)
      600 gate network

all_works-Works : Works all_works
all_works-Works = record { inventory = refl; access = refl; written = refl }

-- The camera's time, 500, is over at 600.
follow_round-closes_example :
    over 600
      (follow_round show_uuid show_address show_ports lower all_works
        (λ n. all_works)
        600
        gate).dir.access
      (device_scope (text "camera"))
    ≡ false
follow_round-closes_example =
    follow_round-closes show_uuid show_address show_ports lower all_works (λ n. all_works) 600 gate
      (device_scope (text "camera")) all_works-Works (λ n. all_works-Works) dir-IsListed

-- At 600 the group and the request are open, and the group closes first.
next_end_test : next_end snapshot 600 ≡ some 1000
unfolding access_code least_end next_end all_stored
next_end_test = refl
