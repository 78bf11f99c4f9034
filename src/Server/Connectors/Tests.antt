-- ===== src/Server/Connectors/Tests.antt =====
-- One connector that signs in twice, is asked for two streams and carries one.
use remotehub.Base.{◌≤◌, true, false, none, some, List, [], ◌∷◌, all, arith, ◌≡◌, refl, nat_eq}
use remotehub.Base.Map.{get, insert, remove}
use remotehub.Base.Text.{text}
use remotehub.Connector.Agent.Report.{AccessState}
use remotehub.Server.Connectors.Defs.{
  register, drop_registration, is_online, access, report, streams, streams_carried, count,
  drop_carrying, next_u64, previous_u64,
}
use remotehub.Server.Connectors.Asks.{
  ask_stream, open_stream, claim, fail, end_stream_wait, timed_out,
}
use remotehub.Server.Connectors.Steps.{
  Step, registers, unregisters, counts, uncounts, asks_stream, stream_waited, brings_stream,
  reports_failed, World, start, step, run,
}
use remotehub.Server.Connectors.Online.{registered_online}
use remotehub.Server.Connectors.Counted.{begun, occurrences, entry_for, streams-counted}
use remotehub.Server.Connectors.Waiting.{number_sent}
use remotehub.Server.Connectors.Answered.{is_on, from_asked, answered_once}

run_code : Unit {0}
unfolding get insert remove register drop_registration is_online access report streams
    streams_carried count drop_carrying ask_stream claim fail end_stream_wait next_u64 previous_u64
    step run
run_code = tt

-- The first registration ends after the second one has come.
abbrev reconnected : List Step
reconnected =
    unregisters (record { connector = 5; generation = 0 })
    ∷ asks_stream 5 (text "10.0.0.7:22") none 90
    ∷ counts 5
    ∷ []

abbrev signed_in : World
signed_in = record start {
  connectors = record start.connectors { online = (5, (0, 0)) ∷ []; generation = 1 };
  next = 1;
}

registered_online_example :
    let after = (run signed_in (registers 5 ∷ reconnected)).connectors in
    (is_online after 5 ≡ true)
    × ((ask_stream after 5 (text "10.0.0.8:22") none 91 9).0
        ≡ some (1, open_stream 91 (text "10.0.0.8:22") none none))
    × (is_online (drop_registration (record { connector = 5; generation = 1 }) after) 5 ≡ false)
unfolding run_code
registered_online_example =
    registered_online signed_in 5 reconnected (text "10.0.0.8:22") none 91 9 refl

abbrev nothing_open : AccessState
nothing_open = record {
  opened = false;
  until = none;
  partly = false;
  groups = [];
  devices = [];
  answers = [];
}

abbrev carries : List Step
carries = registers 5 ∷ counts 5 ∷ counts 5 ∷ uncounts 5 ∷ uncounts 6 ∷ []

streams-counted_example :
    (streams (run start carries).connectors 5 ≡ occurrences 5 (run start carries).counted)
    × (get (run start carries).connectors.carrying 5
        ≡ entry_for (occurrences 5 (run start carries).counted))
    × (streams_carried (run start carries).connectors 5 ≡ begun 5 carries)
streams-counted_example = streams-counted 5 carries (omega arith)

streams_test :
    (streams (run start carries).connectors 5 ≡ 1)
    × (streams_carried (run start carries).connectors 5 ≡ 2)
unfolding run_code
streams_test = (refl, refl)

-- Another connector answers first, then the one that was asked does, twice.
abbrev answered_twice : List Step
answered_twice =
    registers 5
    ∷ asks_stream 5 (text "10.0.0.7:22") none 90
    ∷ brings_stream 6 90 1
    ∷ reports_failed 5 90 (text "timed out") false
    ∷ brings_stream 5 90 2
    ∷ stream_waited 90 timed_out
    ∷ []

answered_test : (run start answered_twice).sent ≡ record { channel = 1; by = 5 } ∷ []
unfolding run_code
answered_test = refl

answered_once_example :
    let sent = (run start answered_twice).sent in
    (number_sent (is_on 1) sent ≤ 1) × (all (from_asked 1 5) sent ≡ true)
unfolding run_code
answered_once_example = answered_once answered_twice 1 5 refl
