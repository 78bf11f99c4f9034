-- ===== src/Connector/Agent/Tests.antt =====
-- The connector's way to remotehub in crates/connector/src/agent.rs, at one customer.
use remotehub.Base.{
  ℕ, Bool, true, false, none, some, List, [], ◌∷◌, filter, ◌⊎◌, inr, arith, ◌≡◌, refl, nat_eq,
}
use remotehub.Base.Map.{get}
use remotehub.Base.Text.{Text, text}
use remotehub.Connector.Inventory.Defs.{v4}
use remotehub.Connector.Access.Defs.{CustomerRequest, all_stored}
use remotehub.Connector.Access.Queries.{least_end, next_end, any_open}
use remotehub.Connector.Network.{contains_ip}
use remotehub.Connector.Sample.{
  access_code, lower, snapshot, asked, resolve, same_ip, same_host, parse_address, show_uuid,
  show_address, show_ports, dir, all_works,
}
use remotehub.Connector.Agent.Reach.{
  SocketAddr, host_and_port, Lookup, found, is_allowed, resolve_target,
}
use remotehub.Connector.Agent.Listed.{let_through, open_when_read}
use remotehub.Connector.Agent.Checked.{Says, resolve_target_exact}
use remotehub.Connector.Agent.Report.{response, taken_of, report_round}
use remotehub.Connector.Agent.Reported.{Leaves, report_round-Leaves}
use remotehub.Connector.Agent.Tunnel.{
  ReachedAt, Running, Connections, all_closed, sleeps, passes, while_open_round, waits,
}
use remotehub.Connector.Agent.Kept.{ends_unless, while_open_round_exact}

abbrev plc_address : SocketAddr
plc_address = record { ip = v4 11; port = 22 }

abbrev strange_address : SocketAddr
strange_address = record { ip = v4 99; port = 22 }

abbrev lookup : Text → Lookup
lookup target = found (plc_address ∷ strange_address ∷ [])

host_and_port_tests :
    (host_and_port (text "[::1]:22") ≡ some (text "::1", 22))
    × (host_and_port (text "plc.local:65536") ≡ none)
    × (host_and_port (text "plc.local") ≡ none)
unfolding host_and_port
host_and_port_tests = (refl, refl, refl)

waits_test : waits 0 (false ∷ false ∷ true ∷ false ∷ []) ≡ 1 ∷ 2 ∷ 1 ∷ 2 ∷ []
unfolding waits
waits_test = refl

resolve_target_exact_example :
    let allowed =
      filter
        (is_allowed contains_ip resolve same_ip same_host parse_address [])
        (plc_address ∷ strange_address ∷ []) in
    Says
      (let_through contains_ip resolve same_ip same_host parse_address snapshot
        (text "plc.local")
        22
        9)
      (text "plc.local")
      22
      allowed
      (open_when_read contains_ip resolve same_ip same_host parse_address snapshot
        (text "plc.local")
        22
        (λ k. 7)
        0
        allowed)
      9
      (resolve_target contains_ip resolve same_ip same_host parse_address [] snapshot lookup
        (λ k. 7)
        (text "plc.local:22"))
unfolding host_and_port
resolve_target_exact_example =
    resolve_target_exact contains_ip resolve same_ip same_host parse_address [] snapshot lookup
      (λ k. 7) (text "plc.local:22") (text "plc.local") 22 (plc_address ∷ strange_address ∷ []) 9
      (λ k. omega arith) refl refl

abbrev running_at : ReachedAt → Running
running_at r = record {
  target = text "plc.local:22";
  user = none;
  device = none;
  since = 5;
  sent = 0;
  received = 0;
  reached = r;
  ended = false;
}

abbrev to_plc : Running
to_plc = running_at (record { host = text "11"; ip = v4 11; port = 22 })

abbrev elsewhere : Running
elsewhere = running_at (record { host = text "99"; ip = v4 99; port = 22 })

abbrev carried : Connections
carried = (1, to_plc) ∷ (2, elsewhere) ∷ []

abbrev left : Connections
left = (1, to_plc) ∷ (2, record elsewhere { ended = true }) ∷ []

while_open_round_test :
    while_open_round contains_ip resolve same_ip same_host parse_address snapshot 600
      (λ id. 601)
      carried
    ≡ sleeps left (some 1000)
unfolding access_code while_open_round next_end least_end all_stored any_open
while_open_round_test = refl

while_open_round_exact_example :
    get left 2
    ≡ some (
        ends_unless
          (passes contains_ip resolve same_ip same_host parse_address snapshot elsewhere.reached
            999)
          elsewhere)
unfolding get
while_open_round_exact_example =
    while_open_round_exact contains_ip resolve same_ip same_host parse_address snapshot 600 999
      (λ id. 601) carried left (some 1000) 2 elsewhere while_open_round_test refl (omega arith)
      (omega arith) refl

-- At 2000 nothing is open any more.
over_test :
    while_open_round contains_ip resolve same_ip same_host parse_address snapshot 2000
      (λ id. 2001)
      carried
    ≡ all_closed
unfolding access_code while_open_round next_end least_end all_stored any_open
over_test = refl

abbrev panel : CustomerRequest
panel = record {
  id = 7;
  requester = text "bob";
  reason = text "update";
  minutes = 60;
  targets = asked ∷ [];
}

abbrev is_ip : Text → Bool
is_ip s = true

abbrev reads : List ℕ → Text ⊎ List CustomerRequest
reads bytes = inr (panel ∷ [])

report_round-Leaves_example :
    Leaves
      (λ k. all_works)
      (record { listed = []; answers = [] })
      dir
      (taken_of (λ status. []) is_ip reads (response 200 none (b'[' ∷ [])))
      (report_round
        (λ status. [])
        is_ip
        reads
        show_uuid
        show_address
        show_ports
        lower
        (λ k. all_works)
        (response 200 none (b'[' ∷ []))
        (record { listed = []; answers = [] }, dir))
report_round-Leaves_example =
    report_round-Leaves (λ status. []) is_ip reads show_uuid show_address show_ports lower
      (λ k. all_works) (response 200 none (b'[' ∷ [])) (record { listed = []; answers = [] }) dir
