-- ===== src/Connector/Agent/Reported.antt =====
-- What the connector reports is bounded and says what is open, and what a report brings is recorded
-- and opens nothing (crates/connector/src/agent.rs).
use mathlib.Core.List.{append-nil, append_assoc}
use remotehub.Base.{
  ℕ, zero, suc, ◌≤◌, Bool, ◌||◌, not, Option, List, [], ◌∷◌, ◌++◌, if◌then◌else◌, length, filter,
  ◌⊎◌, inl, inr, arith, ◌≡◌, refl, ap, sym, ◌∙◌, contains, nat_eq,
}
use remotehub.Base.Text.{Text}
use remotehub.Connector.Inventory.Defs.{Address, Ports}
use remotehub.Connector.Access.Defs.{Time, Uuid, CustomerRequest, Snapshot}
use remotehub.Connector.Access.Queries.{any_open}
use remotehub.Connector.Access.Store.{Dir, Io, Entry, request_received}
use remotehub.Connector.Access.Changes.{received, targets_text}
use remotehub.Connector.Requests.Defs.{State, list_requests, take, ids}
use remotehub.Connector.Agent.Report.{
  max_listed, state, Response, PostError, taken_of, record_all, report_round,
}

length-take-le {ℓ} : {A : Type ℓ} (n : ℕ) (xs : List A) → length (take n xs) ≤ n
length-take-le zero xs = omega arith
length-take-le (suc n) [] = omega arith
length-take-le (suc n) (x ∷ xs) = omega (arith, length-take-le n xs)

-- A report names at most 1000 groups and at most 1000 devices, and it says that the network is open or
-- that something else is exactly if anything is open.
pub state-bounded :
    (format : Time → Option Text) (show_address : Address → Text) (s : Snapshot) (now : Time)
    → let report = state format show_address s now in
      (length report.groups ≤ max_listed)
      × (length report.devices ≤ max_listed)
      × ((report.opened || report.partly) ≡ any_open s now)
unfolding state any_open
state-bounded format show_address s now =
    (length-take-le max_listed _, length-take-le max_listed _, ground arith)

-- The entries of requests that are recorded one after the other, as far as the journal can be written.
abbrev pub recorded_one : Io → CustomerRequest → List Entry
recorded_one io r =
    if io.writes_journal
    then record {
      at = io.journal_now;
      event = request_received r.id r.requester r.reason r.minutes (targets_text r.targets);
    }
      ∷ []
    else []

abbrev pub recorded : (ℕ → Io) → ℕ → List CustomerRequest → List Entry
recorded io k [] = []
recorded io k (r ∷ rest) = recorded_one (io k) r ++ recorded io (suc k) rest

-- What a round leaves: the requests that remotehub lists, and the new ones in the journal; or, if its
-- answer is not taken, all as it was.
abbrev pub Leaves : (ℕ → Io) → State → Dir → PostError ⊎ List CustomerRequest → State × Dir → Type 0
Leaves io s d (inl e) after = (after.0 ≡ s) × (after.1 ≡ d)
Leaves io s d (inr requests) after =
    (after.0.listed ≡ requests)
    × (after.1.access ≡ d.access)
    × (after.1.inventory ≡ d.inventory)
    × (after.1.journal
        ≡ d.journal ++ recorded io 0 (filter (λ r. not (contains (ids s.listed) r.id)) requests))

module _ (show_status : ℕ → Text) (is_ip : Text → Bool)
    (from_slice : List ℕ → Text ⊎ List CustomerRequest) (show_uuid : Uuid → Text)
    (show_address : Address → Text) (show_ports : List Ports → Text) (lower : Text → Text) where
  received_step :
      (i : Io) (r : CustomerRequest) (d : Dir)
      → let next = (received show_uuid show_address show_ports lower i r d).1 in
        (next.access ≡ d.access)
        × (next.inventory ≡ d.inventory)
        × (next.journal ≡ d.journal ++ recorded_one i r)
  unfolding received
  received_step i r d = ground (arith, append-nil d.journal)

  record_all-eq :
      (io : ℕ → Io) (k : ℕ) (rs : List CustomerRequest) (d : Dir)
      → let after =
          record_all show_status is_ip from_slice show_uuid show_address show_ports lower io k rs
            d in
        (after.access ≡ d.access)
        × (after.inventory ≡ d.inventory)
        × (after.journal ≡ d.journal ++ recorded io k rs)
  unfolding record_all
  record_all-eq io k [] d = (refl, refl, sym (append-nil d.journal))
  record_all-eq io k (r ∷ rest) d =
      let next = (received show_uuid show_address show_ports lower (io k) r d).1 in
      let (access, inventory, journal) = record_all-eq io (suc k) rest next in
      let step = received_step (io k) r d in
      (
        access ∙ step.0,
        inventory ∙ step.1,
        journal
            ∙ (ap (λ j. j ++ recorded io (suc k) rest) step.2
                ∙ append_assoc d.journal (recorded_one (io k) r) (recorded io (suc k) rest)),
      )

  -- Whatever remotehub answers to a report, nothing opens and the list stays. If the answer is taken,
  -- its requests are the listed ones, and those with an id that was not listed before are recorded, in
  -- their order, as far as the journal can be written; if not, nothing changes.
  pub report_round-Leaves :
      (io : ℕ → Io) (answer : Response) (s : State) (d : Dir)
      → Leaves io s d (taken_of show_status is_ip from_slice answer) (
          report_round show_status is_ip from_slice show_uuid show_address show_ports lower io
            answer
            (s, d))
  report_round-Leaves io answer s d = leaves (taken_of show_status is_ip from_slice answer) refl
    where
      leaves :
          (taken : PostError ⊎ List CustomerRequest)
          → taken_of show_status is_ip from_slice answer ≡ taken
          → Leaves io s d taken (
              report_round show_status is_ip from_slice show_uuid show_address show_ports lower io
                answer
                (s, d))
      leaves (inl e) h = unfold report_round in ground (arith, h)
      leaves (inr requests) h =
          let (new, after) = list_requests s requests in
          let (access, inventory, journal) = record_all-eq io 0 new d in
          unfold report_round list_requests in ground (arith, h, access, inventory, journal)
