-- ===== src/Server/Connectors/Counted.antt =====
-- How many streams a connector carries and has carried (crates/server/src/connectors.rs).
use remotehub.Base.{
  ℕ, suc, ◌+◌, ◌≤◌, Bool, true, false, not, Option, none, some, List, [], ◌∷◌, if◌then◌else◌, ◌=?◌,
  contains, arith, ◌≡◌, refl, ap, subst, ◌∙◌, nat_eq, Bool-cases, inl, inr,
}
use remotehub.Base.Map.{HashMap, get, get-insert, get-remove}
use remotehub.Connector.Access.Defs.{Uuid}
use remotehub.Server.Connectors.Defs.{
  register, drop_registration, count, drop_carrying, streams, streams_carried, or_default, one_more,
  one_less, next_u64, previous_u64, max_u64, report, is_generation,
}
use remotehub.Server.Connectors.Steps.{
  Step, registers, unregisters, counts, uncounts, reports, World, start, without_one, step, run,
}
use remotehub.Server.Connectors.Kept.{step-Kept, step-counted}

-- How often an id is in a list.
abbrev pub occurrences : Uuid → List Uuid → ℕ
occurrences c [] = 0
occurrences c (d ∷ ds) = (if d =? c then 1 else 0) + occurrences c ds

-- How many streams of the connector began.
abbrev pub begun : Uuid → List Step → ℕ
begun c [] = 0
begun c (counts d ∷ ss) = (if d =? c then 1 else 0) + begun c ss
begun c (other ∷ ss) = begun c ss

abbrev pub entry_for : ℕ → Option ℕ
entry_for n = if n =? 0 then none else some n

contains-occurrences : (c : Uuid) (ds : List Uuid) → contains ds c ≡ not (occurrences c ds =? 0)
contains-occurrences c [] = refl
contains-occurrences c (d ∷ ds) = ground (arith, contains-occurrences c ds)

occurrences-without_one :
    (c d : Uuid) (ds : List Uuid)
    → contains ds d ≡ true
    → occurrences c (without_one d ds) + (if d =? c then 1 else 0) ≡ occurrences c ds
occurrences-without_one c d [] h = cc
occurrences-without_one c d (e ∷ ds) h = elim (Bool-cases (e =? d)) [
  | inl y ↦ ground (arith, y)
  | inr n ↦ ground (arith, n, occurrences-without_one c d ds)
]

get-one_more :
    (m : HashMap Uuid ℕ) (c d : Uuid) (n : ℕ)
    → or_default (get m c) ≡ n
    → (if d =? c then 1 else 0) + n ≤ max_u64
    → get (one_more m d) c ≡ (if d =? c then some (n + 1) else get m c)
unfolding next_u64
get-one_more m c d n h b = get-insert m d c (next_u64 (or_default (get m d))) ∙ ground arith

get-one_less_other :
    (m : HashMap Uuid ℕ) (c d : Uuid) (v : Option ℕ)
    → (d =? c) ≡ false
    → get (one_less m d v) c ≡ get m c
get-one_less_other m c d none h = refl
get-one_less_other m c d (some n) h =
    ground (arith, get-insert m d c (previous_u64 n), get-remove m d c)

get-one_less :
    (m : HashMap Uuid ℕ) (c : Uuid) (n : ℕ) → get (one_less m c (entry_for (suc n))) c ≡ entry_for n
unfolding previous_u64
get-one_less m c n = ground (arith, get-insert m c c n, get-remove m c c)

-- The counts of a connector, of which so many streams began.
record IsCounted (c : Uuid) (n : ℕ) (carrying carried : HashMap Uuid ℕ) (counted : List Uuid)
    : Type 0 where
  open_now : get carrying c ≡ entry_for (occurrences c counted)
  since_start : or_default (get carried c) ≡ n
  within : occurrences c counted ≤ n

abbrev Counts : Uuid → ℕ → World → Type 0
Counts c n w = IsCounted c n w.connectors.carrying w.connectors.carried w.counted

counts-carrying :
    (m : HashMap Uuid ℕ) (c d : Uuid) (counted : List Uuid)
    → get m c ≡ entry_for (occurrences c counted)
    → occurrences c (d ∷ counted) ≤ max_u64
    → get (one_more m d) c ≡ entry_for (occurrences c (d ∷ counted))
counts-carrying m c d counted h b =
    get-one_more m c d (occurrences c counted) (ground (arith, h)) b ∙ ground (arith, h)

counts-carried :
    (m : HashMap Uuid ℕ) (c d : Uuid) (n : ℕ)
    → or_default (get m c) ≡ n
    → begun c (counts d ∷ []) + n ≤ max_u64
    → or_default (get (one_more m d) c) ≡ begun c (counts d ∷ []) + n
counts-carried m c d n h b =
    ap or_default (get-one_more m c d n h (omega (arith, b))) ∙ ground (arith, h)

uncounts-carrying :
    (m : HashMap Uuid ℕ) (c d : Uuid) (counted : List Uuid)
    → get m c ≡ entry_for (occurrences c counted)
    → contains counted d ≡ true
    → get (one_less m d (get m d)) c ≡ entry_for (occurrences c (without_one d counted))
uncounts-carrying m c d counted h k = elim (Bool-cases (d =? c)) [
  | inl y ↦
      let same : d ≡ c = ground arith in
      let held : contains counted c ≡ true = subst (λ e. contains counted e ≡ true) same k in
      rw (same, h, less held) (get-one_less m c (occurrences c (without_one c counted)))
  | inr n ↦
      get-one_less_other m c d (get m d) n
      ∙ (h ∙ ground (arith, occurrences-without_one c d counted k))
]
  where
    less :
        contains counted c ≡ true
        → occurrences c counted ≡ suc (occurrences c (without_one c counted))
    less held = ground (arith, occurrences-without_one c c counted held)

counts_step :
    (c d : Uuid) (n : ℕ) (w : World)
    → begun c (counts d ∷ []) + n ≤ max_u64
    → Counts c n w
    → Counts c (begun c (counts d ∷ []) + n) (step w (counts d))
unfolding step count
counts_step c d n w b h = record {
  open_now =
      counts-carrying w.connectors.carrying c d w.counted h.open_now (omega (arith, b, h.within));
  since_start = counts-carried w.connectors.carried c d n h.since_start b;
  within = omega (arith, h.within);
}

uncounts_step : (c d : Uuid) (n : ℕ) (w : World) → Counts c n w → Counts c n (step w (uncounts d))
unfolding step drop_carrying
uncounts_step c d n w h = elim (Bool-cases (contains w.counted d)) [
  | inl y ↦
      rw (y, if◌then◌else◌)
        (record {
          open_now = uncounts-carrying w.connectors.carrying c d w.counted h.open_now y;
          since_start = h.since_start;
          within = omega (arith, occurrences-without_one c d w.counted y, h.within);
        })
  | inr n ↦ rw (n, if◌then◌else◌) h
]

moved : (c : Uuid) (n m : ℕ) (w : World) → n ≡ m → Counts c n w → Counts c m w
moved c n m w e h = subst (λ k. Counts c k w) (e) h

abbrev is_counts : Step → Bool
is_counts (counts d) = true
is_counts other = false

-- A step that begins no stream, and leaves the counts of the connector.
step_same :
    (c : Uuid) (n : ℕ) (w : World) (s : Step)
    → is_counts s ≡ false
    → Counts c n w
    → Counts c n (step w s)
step_same c n w (counts d) q h = ground (arith, q)
step_same c n w (uncounts d) q h = uncounts_step c d n w h
step_same c n w (registers d) q h = unfold step register in h
step_same c n w (unregisters r) q h =
    unfold step drop_registration in
    elim (Bool-cases (is_generation r.generation (get w.connectors.online r.connector))) [
      | inl y ↦ rw (y, if◌then◌else◌) h
      | inr m ↦ rw (m, if◌then◌else◌) h
    ]
step_same c n w (reports d state now) q h = unfold step report in h
step_same c n w other q h =
    let kept = step-Kept w other refl in rw (kept.2, kept.3, step-counted w other refl) h

run-Counts :
    (c : Uuid) (n : ℕ) (w : World) (ss : List Step)
    → begun c ss + n ≤ max_u64
    → Counts c n w
    → Counts c (begun c ss + n) (run w ss)
unfolding run
run-Counts c n w [] b h = moved c n (0 + n) w (omega arith) h
run-Counts c n w (counts d ∷ ss) b h =
    let m : ℕ = begun c (counts d ∷ []) + n in
    moved c (begun c ss + m) (begun c (counts d ∷ ss) + n) (run w (counts d ∷ ss)) (omega arith) (
      run-Counts c m (step w (counts d)) ss (omega (arith, b))
        (counts_step c d n w (omega (arith, b)) h))
run-Counts c n w (s ∷ ss) b h = run-Counts c n (step w s) ss b (step_same c n w s refl h)

-- After any run from the start, in which fewer than 2 ^ 64 streams of a connector began: the streams
-- that it is said to carry are those whose `Carrying` is still held, one that carries none has no
-- entry, and those that it is said to have carried are all that began.
pub streams-counted :
    (c : Uuid) (ss : List Step)
    → begun c ss ≤ max_u64
    → let after = run start ss in
      (streams after.connectors c ≡ occurrences c after.counted)
      × (get after.connectors.carrying c ≡ entry_for (occurrences c after.counted))
      × (streams_carried after.connectors c ≡ begun c ss)
unfolding streams streams_carried
streams-counted c ss b =
    let h = run-Counts c 0 start ss (omega (arith, b)) empty in
    (rw (h.open_now) (ground arith), h.open_now, h.since_start ∙ omega arith)
  where
    empty : Counts c 0 start
    empty = unfold get in record { open_now = refl; since_start = refl; within = omega arith }
