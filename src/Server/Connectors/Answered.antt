-- ===== src/Server/Connectors/Answered.antt =====
-- Who answers what (crates/server/src/connectors.rs): an answer is taken once, and from the connector
-- that was asked.
use remotehub.Base.{
  suc, ◌+◌, ◌≤◌, Bool, true, ◌&&◌, ◌||◌, not, some, List, [], ◌∷◌, ◌=?◌, all, arith, ◌≡◌, refl, ap,
  sym, ◌∙◌, nat_eq, Bool-cases, inl, inr,
}
use remotehub.Base.Map.{HashMap, get, get-insert, insert}
use remotehub.Connector.Access.Defs.{Uuid}
use remotehub.Server.Connectors.Defs.{Channel}
use remotehub.Server.Connectors.Steps.{
  Step, uncounts, asks_stream, asks_check, World, Sent, start, step, run,
}
use remotehub.Server.Connectors.Waiting.{
  one, number, number_sent, on_pending, on_check, total_of, step-total,
}

abbrev pub is_on : Channel → Channel → Uuid → Bool
is_on k channel connector = channel =? k

abbrev pub is_foreign : Channel → Uuid → Channel → Uuid → Bool
is_foreign k c channel connector = (channel =? k) && not (connector =? c)

number-le :
    {V : Type 0} (p q : V → Bool) (m : HashMap Uuid V)
    → ((v : V) → one (p v) ≤ one (q v))
    → number p m ≤ number q m
number-le p q [] h = omega arith
number-le p q ((k, v) ∷ m) h = omega (arith, h v, number-le p q m h)

number_sent-le :
    (p q : Channel → Uuid → Bool) (ss : List Sent)
    → ((k : Channel) (c : Uuid) → one (p k c) ≤ one (q k c))
    → number_sent p ss ≤ number_sent q ss
number_sent-le p q [] h = omega arith
number_sent-le p q (s ∷ ss) h = omega (arith, h s.channel s.by, number_sent-le p q ss h)

foreign-le :
    (k : Channel) (c : Uuid) (w : World) → total_of (is_foreign k c) w ≤ total_of (is_on k) w
foreign-le k c w = omega (
  arith,
  number-le (on_pending (is_foreign k c)) (on_pending (is_on k)) w.connectors.pending
      (λ v. ground arith),
  number-le (on_check (is_foreign k c)) (on_check (is_on k)) w.connectors.checks
      (λ v. ground arith),
  number_sent-le (is_foreign k c) (is_on k) w.sent (λ j d. ground arith),
)

-- No channel is used before it is made, each waits or was answered at most once, and only where the
-- connector that was asked is the one.
record IsAnswered (w : World) : Type 0 where
  fresh : (k : Channel) → w.next ≤ k → total_of (is_on k) w ≡ 0
  once : (k : Channel) → total_of (is_on k) w ≤ 1
  by_asked : (k : Channel) (c : Uuid) → get w.asked k ≡ some c → total_of (is_foreign k c) w ≡ 0

ask-IsAnswered :
    (w after : World) (c : Uuid)
    → after.next ≡ suc w.next
    → after.asked ≡ insert w.asked w.next c
    → ((p : Channel → Uuid → Bool) → total_of p after ≤ total_of p w + one (p w.next c))
    → IsAnswered w
    → IsAnswered after
ask-IsAnswered w after c n a t h = record {
  fresh = λ k l. ground (arith, n, l, t (is_on k), h.fresh k);
  once = λ k. ground (arith, t (is_on k), h.once k, h.fresh k);
  by_asked = λ k d g. elim (Bool-cases (w.next =? k)) [
    | inl y ↦
        let same : c ≡ d = ground (arith, a, g, y, get-insert w.asked w.next k c) in
        ground (arith, t (is_foreign k d), h.fresh k, foreign-le k d w)
    | inr m ↦
        let old : get w.asked k ≡ some d = ground (arith, a, g, m, get-insert w.asked w.next k c) in
        ground (arith, t (is_foreign k d), h.by_asked k d old)
  ];
}

other-IsAnswered :
    (w after : World)
    → w.next ≤ after.next
    → after.asked ≡ w.asked
    → ((p : Channel → Uuid → Bool) → total_of p after ≤ total_of p w + 0)
    → IsAnswered w
    → IsAnswered after
other-IsAnswered w after n a t h = record {
  fresh = λ k l. omega (arith, t (is_on k), h.fresh k (omega (arith, l, n)));
  once = λ k. omega (arith, t (is_on k), h.once k);
  by_asked =
      λ k d g. omega (arith, t (is_foreign k d), h.by_asked k d (ap (λ m. get m k) (sym a) ∙ g));
}

step-IsAnswered : (w : World) (s : Step) → IsAnswered w → IsAnswered (step w s)
step-IsAnswered w (asks_stream c target whom id) h =
    ask-IsAnswered w (step w (asks_stream c target whom id)) c (unfold step in refl)
      (unfold step in refl) (λ p. step-total p w (asks_stream c target whom id)) h
step-IsAnswered w (asks_check c target id) h =
    ask-IsAnswered w (step w (asks_check c target id)) c (unfold step in refl) (unfold step in refl)
      (λ p. step-total p w (asks_check c target id)) h
step-IsAnswered w (uncounts c) h =
    other-IsAnswered w (step w (uncounts c)) (unfold step in ground arith)
      (unfold step in ground arith) (λ p. step-total p w (uncounts c)) h
step-IsAnswered w other h =
    other-IsAnswered w (step w other) (unfold step in omega arith) (unfold step in refl)
      (λ p. step-total p w other) h

run-IsAnswered : (w : World) (ss : List Step) → IsAnswered w → IsAnswered (run w ss)
unfolding run
run-IsAnswered w [] h = h
run-IsAnswered w (s ∷ ss) h = run-IsAnswered (step w s) ss (step-IsAnswered w s h)

start-IsAnswered : IsAnswered start
unfolding get
start-IsAnswered = record { fresh = λ k l. refl; once = λ k. omega arith; by_asked = λ k c g. refl }

abbrev pub from_asked : Channel → Uuid → Sent → Bool
from_asked k c s = not (s.channel =? k) || (s.by =? c)

all-from_asked :
    (k : Channel) (c : Uuid) (ss : List Sent)
    → number_sent (is_foreign k c) ss ≡ 0
    → all (from_asked k c) ss ≡ true
all-from_asked k c [] h = refl
all-from_asked k c (s ∷ ss) h = ground (arith, all-from_asked k c ss)

-- In any run from the start, whatever ids the requests have and whoever answers them: on no channel is
-- more than one answer taken, and a channel that was made to ask a connector only has an answer of
-- that connector.
pub answered_once :
    (ss : List Step) (k : Channel) (c : Uuid)
    → get (run start ss).asked k ≡ some c
    → let sent = (run start ss).sent in
      (number_sent (is_on k) sent ≤ 1) × (all (from_asked k c) sent ≡ true)
answered_once ss k c g =
    let h = run-IsAnswered start ss start-IsAnswered in
    (
      omega (arith, h.once k),
      all-from_asked k c (run start ss).sent (omega (arith, h.by_asked k c g)),
    )
