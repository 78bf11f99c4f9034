-- ===== src/Server/Connectors/Waiting.antt =====
-- The requests that wait for an answer, and the answers (crates/server/src/connectors.rs), as far as a
-- test of their channel and their connector picks them.
use remotehub.Base.{
  ℕ, ◌+◌, ◌≤◌, Bool, Option, none, some, List, [], ◌∷◌, if◌then◌else◌, ◌=?◌, arith, ◌≡◌, refl,
  nat_eq, Bool-cases, inl, inr,
}
use remotehub.Base.Map.{HashMap, get, insert, remove}
use remotehub.Base.Text.{Text}
use remotehub.Connector.Access.Defs.{Uuid}
use remotehub.Server.Connectors.Defs.{
  Channel, Connectors, Pending, Requester, TargetChecked, Streamed, register, drop_registration,
  count, drop_carrying, report,
}
use remotehub.Server.Connectors.Asks.{
  ask_stream, stream_to, check_to, end_stream_wait, claim, fail, ask_check, end_check_wait, checked,
  claim_waiting, checked_by, failure, sent_on,
}
use remotehub.Server.Connectors.Steps.{
  Step, registers, unregisters, counts, uncounts, reports, asks_stream, stream_waited,
  brings_stream, reports_failed, asks_check, check_waited, reports_checked, World, Sent, answers,
  channel_of, step,
}

abbrev pub one : Bool → ℕ
one b = if b then 1 else 0

-- How many values of a map pass a test.
abbrev pub number : {V : Type 0} → (V → Bool) → HashMap Uuid V → ℕ
number p [] = 0
number p ((k, v) ∷ m) = one (p v) + number p m

number-insert-le :
    {V : Type 0} (p : V → Bool) (m : HashMap Uuid V) (k : Uuid) (v : V)
    → number p (insert m k v) ≤ number p m + one (p v)
unfolding insert
number-insert-le p [] k v = ground arith
number-insert-le p ((j, w) ∷ m) k v = ground (arith, number-insert-le p m k v)

pub number-remove-le :
    {V : Type 0} (p : V → Bool) (m : HashMap Uuid V) (k : Uuid) → number p (remove m k) ≤ number p m
unfolding remove
number-remove-le p [] k = omega arith
number-remove-le p ((j, w) ∷ m) k = ground (arith, number-remove-le p m k)

number-remove-get :
    {V : Type 0} (p : V → Bool) (m : HashMap Uuid V) (k : Uuid) (v : V)
    → get m k ≡ some v
    → number p (remove m k) + one (p v) ≤ number p m
unfolding get remove
number-remove-get p [] k v h = cc
number-remove-get p ((j, w) ∷ m) k v h = elim (Bool-cases (j =? k)) [
  | inl y ↦ ground (arith, y, h, number-remove-le p m k)
  | inr n ↦ ground (arith, n, h, number-remove-get p m k v)
]

abbrev pub number_sent : (Channel → Uuid → Bool) → List Sent → ℕ
number_sent p [] = 0
number_sent p (s ∷ ss) = one (p s.channel s.by) + number_sent p ss

abbrev pub on_pending : (Channel → Uuid → Bool) → Pending → Bool
on_pending p waiting = p waiting.reply waiting.connector

abbrev pub on_check : (Channel → Uuid → Bool) → Uuid × Channel → Bool
on_check p (connector, reply) = p reply connector

abbrev pub total : (Channel → Uuid → Bool) → Connectors → List Sent → ℕ
total p cs sent =
    number (on_pending p) cs.pending + (number (on_check p) cs.checks + number_sent p sent)

pub claim-total :
    (p : Channel → Uuid → Bool) (cs : Connectors) (c id : Uuid) (sent : List Sent)
    (waiting : Option Pending)
    → get cs.pending id ≡ waiting
    → let (reply, after) = claim_waiting cs c id waiting in
      total p after (answers c reply sent) ≤ total p cs sent
claim-total p cs c id sent none h = omega arith
claim-total p cs c id sent (some w) h = elim (Bool-cases (w.connector =? c)) [
  | inl y ↦
      let same : w.connector ≡ c = ground arith in
      rw (y, if◌then◌else◌, ← same)
        (omega (arith, number-remove-get (on_pending p) cs.pending id w h))
  | inr n ↦ rw (n, if◌then◌else◌) (omega arith)
]

pub checked-total :
    (p : Channel → Uuid → Bool) (cs : Connectors) (c id : Uuid) (answer : TargetChecked)
    (sent : List Sent) (asked : Option (Uuid × Channel))
    → get cs.checks id ≡ asked
    → let (reply, after) = checked_by cs c id answer asked in
      total p after (answers c (channel_of reply) sent) ≤ total p cs sent
checked-total p cs c id answer sent none h = omega arith
checked-total p cs c id answer sent (some (asked, reply)) h = elim (Bool-cases (asked =? c)) [
  | inl y ↦
      let same : asked ≡ c = ground arith in
      rw (y, if◌then◌else◌, ← same)
        (omega (arith, number-remove-get (on_check p) cs.checks id (asked, reply) h))
  | inr n ↦ rw (n, if◌then◌else◌) (omega arith)
]

pub channel_of-sent_on :
    (answer : Streamed) (reply : Option Channel) → channel_of (sent_on answer reply) ≡ reply
channel_of-sent_on answer none = refl
channel_of-sent_on answer (some k) = refl

pub stream_to-total :
    (p : Channel → Uuid → Bool) (cs : Connectors) (c : Uuid) (t : Text) (whom : Option Requester)
    (id : Uuid) (k : Channel) (to : Option (ℕ × Channel)) (sent : List Sent)
    → total p (stream_to cs c t whom id k to).1 sent ≤ total p cs sent + one (p k c)
stream_to-total p cs c t whom id k none sent = omega arith
stream_to-total p cs c t whom id k (some (g, to)) sent =
    omega
      (arith, number-insert-le (on_pending p) cs.pending id (record { connector = c; reply = k }))

pub check_to-total :
    (p : Channel → Uuid → Bool) (cs : Connectors) (c : Uuid) (t : Text) (id : Uuid) (k : Channel)
    (to : Option (ℕ × Channel)) (sent : List Sent)
    → total p (check_to cs c t id k to).1 sent ≤ total p cs sent + one (p k c)
check_to-total p cs c t id k none sent = omega arith
check_to-total p cs c t id k (some (g, to)) sent =
    omega (arith, number-insert-le (on_check p) cs.checks id (c, k))

-- An ask takes the next channel for its connector.
abbrev pub taken : (Channel → Uuid → Bool) → World → Step → ℕ
taken p w (asks_stream c target whom id) = one (p w.next c)
taken p w (asks_check c target id) = one (p w.next c)
taken p w other = 0

abbrev pub total_of : (Channel → Uuid → Bool) → World → ℕ
total_of p w = total p w.connectors w.sent

-- No step but an ask adds to what waits and what was answered.
pub step-total :
    (p : Channel → Uuid → Bool) (w : World) (s : Step)
    → total_of p (step w s) ≤ total_of p w + taken p w s
step-total p w (registers c) = unfold step register in omega arith
step-total p w (unregisters r) = unfold step drop_registration in ground arith
step-total p w (counts c) = unfold step count in omega arith
step-total p w (uncounts c) = unfold step drop_carrying in ground arith
step-total p w (reports c state now) = unfold step report in omega arith
step-total p w (asks_stream c target whom id) =
    unfold step ask_stream in
    stream_to-total p w.connectors c target whom id w.next (get w.connectors.online c) w.sent
step-total p w (stream_waited id waited) =
    unfold step end_stream_wait in
    omega (arith, number-remove-le (on_pending p) w.connectors.pending id)
step-total p w (brings_stream c id socket) =
    unfold step claim in
    omega (arith, claim-total p w.connectors c id w.sent (get w.connectors.pending id) refl)
step-total p w (reports_failed c id reason closed) =
    unfold step claim fail in
    rw (channel_of-sent_on (failure reason closed))
      (omega (arith, claim-total p w.connectors c id w.sent (get w.connectors.pending id) refl))
step-total p w (asks_check c target id) =
    unfold step ask_check in
    check_to-total p w.connectors c target id w.next (get w.connectors.online c) w.sent
step-total p w (check_waited id waited) =
    unfold step end_check_wait in
    omega (arith, number-remove-le (on_check p) w.connectors.checks id)
step-total p w (reports_checked c id answer) =
    unfold step checked in
    omega (arith, checked-total p w.connectors c id answer w.sent (get w.connectors.checks id) refl)
