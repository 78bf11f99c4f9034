-- ===== src/Server/Connectors/Kept.antt =====
-- What the operations of crates/server/src/connectors.rs leave as it is.
use remotehub.Base.{
  ℕ, Bool, true, false, Option, none, some, if◌then◌else◌, ◌=?◌, arith, ◌≡◌, refl, nat_eq,
  Bool-cases, inl, inr,
}
use remotehub.Base.Map.{get}
use remotehub.Base.Text.{Text}
use remotehub.Connector.Access.Defs.{Uuid}
use remotehub.Server.Connectors.Defs.{
  Channel, Connectors, Pending, TargetChecked, Requester, count, drop_carrying,
}
use remotehub.Server.Connectors.Asks.{
  ask_stream, end_stream_wait, claim, fail, ask_check, end_check_wait, checked, claim_waiting,
  checked_by, stream_to, check_to,
}
use remotehub.Server.Connectors.Steps.{
  Step, registers, unregisters, counts, uncounts, reports, asks_stream, stream_waited,
  brings_stream, reports_failed, asks_check, check_waited, reports_checked, World, step,
}

-- The parts that claims and asks leave.
abbrev pub Kept : Connectors → Connectors → Type 0
Kept before after =
    (after.online ≡ before.online)
    × (after.access ≡ before.access)
    × (after.carrying ≡ before.carrying)
    × (after.carried ≡ before.carried)

claim_waiting-Kept :
    (cs : Connectors) (c id : Uuid) (p : Option Pending) → Kept cs (claim_waiting cs c id p).1
claim_waiting-Kept cs c id none = (refl, refl, refl, refl)
claim_waiting-Kept cs c id (some p) = elim (Bool-cases (p.connector =? c)) [
  | inl y ↦ rw (y, if◌then◌else◌) (refl, refl, refl, refl)
  | inr n ↦ rw (n, if◌then◌else◌) (refl, refl, refl, refl)
]

checked_by-Kept :
    (cs : Connectors) (c id : Uuid) (a : TargetChecked) (p : Option (Uuid × Channel))
    → Kept cs (checked_by cs c id a p).1
checked_by-Kept cs c id a none = (refl, refl, refl, refl)
checked_by-Kept cs c id a (some (asked, reply)) = elim (Bool-cases (asked =? c)) [
  | inl y ↦ rw (y, if◌then◌else◌) (refl, refl, refl, refl)
  | inr n ↦ rw (n, if◌then◌else◌) (refl, refl, refl, refl)
]

stream_to-Kept :
    (cs : Connectors) (c : Uuid) (t : Text) (whom : Option Requester) (id : Uuid) (k : Channel)
    (to : Option (ℕ × Channel))
    → Kept cs (stream_to cs c t whom id k to).1
stream_to-Kept cs c t whom id k none = (refl, refl, refl, refl)
stream_to-Kept cs c t whom id k (some (g, sender)) = (refl, refl, refl, refl)

check_to-Kept :
    (cs : Connectors) (c : Uuid) (t : Text) (id : Uuid) (k : Channel) (to : Option (ℕ × Channel))
    → Kept cs (check_to cs c t id k to).1
check_to-Kept cs c t id k none = (refl, refl, refl, refl)
check_to-Kept cs c t id k (some (g, sender)) = (refl, refl, refl, refl)

abbrev pub is_other : Step → Bool
is_other (registers c) = false
is_other (unregisters r) = false
is_other (reports c state now) = false
is_other (counts c) = false
is_other (uncounts c) = false
is_other other = true

-- Registrations, reports and counts aside, no step changes what is online, reported or counted.
pub step-Kept : (w : World) (s : Step) → is_other s ≡ true → Kept w.connectors (step w s).connectors
unfolding step count drop_carrying ask_stream ask_check end_stream_wait claim fail end_check_wait
    checked
step-Kept w (registers c) n = ground (arith, n)
step-Kept w (unregisters q) n = ground (arith, n)
step-Kept w (reports c state now) n = ground (arith, n)
step-Kept w (counts c) n = ground (arith, n)
step-Kept w (uncounts c) n = ground (arith, n)
step-Kept w (asks_stream c target whom id) n =
    stream_to-Kept w.connectors c target whom id w.next (get w.connectors.online c)
step-Kept w (stream_waited id waited) n = (refl, refl, refl, refl)
step-Kept w (brings_stream c id socket) n =
    claim_waiting-Kept w.connectors c id (get w.connectors.pending id)
step-Kept w (reports_failed c id reason closed) n =
    claim_waiting-Kept w.connectors c id (get w.connectors.pending id)
step-Kept w (asks_check c target id) n =
    check_to-Kept w.connectors c target id w.next (get w.connectors.online c)
step-Kept w (check_waited id waited) n = (refl, refl, refl, refl)
step-Kept w (reports_checked c id answer) n =
    checked_by-Kept w.connectors c id answer (get w.connectors.checks id)

pub step-counted : (w : World) (s : Step) → is_other s ≡ true → (step w s).counted ≡ w.counted
unfolding step
step-counted w (registers c) n = refl
step-counted w (unregisters q) n = refl
step-counted w (reports c state now) n = refl
step-counted w (counts c) n = ground (arith, n)
step-counted w (uncounts c) n = ground (arith, n)
step-counted w (asks_stream c target whom id) n = refl
step-counted w (stream_waited id waited) n = refl
step-counted w (brings_stream c id socket) n = refl
step-counted w (reports_failed c id reason closed) n = refl
step-counted w (asks_check c target id) n = refl
step-counted w (check_waited id waited) n = refl
step-counted w (reports_checked c id answer) n = refl
