-- ===== src/Server/Reports/Tests.antt =====
-- Reports of one customer, and what remotehub takes of them.
use remotehub.Base.{
  ℕ, zero, suc, ◌+◌, true, false, ◌&&◌, Option, none, some, List, [], ◌∷◌, all, ◌⊎◌, inr, arith,
  ◌≡◌, refl,
}
use remotehub.Base.Decimal.{show}
use remotehub.Base.Text.{Text, text, text_eq}
use remotehub.Connector.Inventory.Defs.{Address, Ports, Device}
use remotehub.Connector.Inventory.Written.{ports_text}
use remotehub.Connector.Access.Defs.{Time, Snapshot}
use remotehub.Connector.Agent.Report.{AccessState, state}
use remotehub.Connector.Sample.{access_code, access, snapshot, camera}
use remotehub.Server.Reports.{plain_text, checked_state}
use remotehub.Server.Reports.Taken.{is_taken, fits}
use remotehub.Server.Reports.Sent.{plain_name, plain_texts, report-taken}
use remotehub.Server.Reports.Refused.{long_ports_refused}

-- Points in time are written by their number, which is the text's only character.
abbrev format : Time → Option Text
format t = some (t ∷ [])

abbrev utc : Text → Option Text
utc [] = none
utc (c ∷ rest) = some (c ∷ [])

format-written : (t : Time) (u : Text) → format t ≡ some u → utc u ≡ some u
format-written t [] h = ground (arith, h)
format-written t (c ∷ []) h = refl
format-written t (c ∷ (d ∷ rest)) h = ground (arith, h)

abbrev where_it_is : Address → Text
where_it_is a = text "10.0.0.7"

report-taken_example :
    let r = state format where_it_is snapshot 600 in
    (is_taken (checked_state utc r)
      ≡ (all (plain_name utc) r.groups && all (plain_texts utc) r.devices))
    × ((checked_state utc r ≡ inr r)
        ⊎ ((all (plain_name utc) r.groups && all (plain_texts utc) r.devices) ≡ false))
report-taken_example = report-taken utc format where_it_is format-written snapshot 600

-- Forty ports, each another.
abbrev ports_from : ℕ → ℕ → List Ports
ports_from zero first = []
ports_from (suc n) first = record { first = first; last = first } ∷ ports_from n (first + 2)

abbrev many_ports : Device
many_ports = record camera { ports = ports_from 40 10000 }

abbrev wide : Snapshot
wide = record { access = access; inventory = record { devices = many_ports ∷ []; groups = [] } }

long_ports_refused_example :
    is_taken (checked_state utc (record (state format where_it_is wide 7) { answers = [] })) ≡ false
unfolding access_code ports_text show
long_ports_refused_example = long_ports_refused utc format where_it_is wide 7 [] refl (omega arith)

-- A refusal that names an end.
abbrev odd : AccessState
odd = record {
  opened = false;
  until = none;
  partly = false;
  groups = record { name = text "line"; until = some (text "x") } ∷ [];
  devices = [];
  answers = record { id = 7; approved = false; by = text "ann"; until = some (text "x") } ∷ [];
}

odd_test : (fits utc odd ≡ false) × (fits utc (record odd { answers = [] }) ≡ true)
unfolding plain_text
odd_test = (refl, refl)
