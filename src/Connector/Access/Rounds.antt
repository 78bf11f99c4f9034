-- ===== src/Connector/Access/Rounds.antt =====
-- After a round of `Gate::follow` in crates/connector/src/access.rs that can read and write its files,
-- nothing is left that ran out.
use remotehub.Base.{
  ℕ, suc, true, false, Option, some, List, [], ◌∷◌, arith, ◌≡◌, refl, ap, eq_of_==, nat_eq, ◌⊎◌,
  inl, inr, Bool-cases, subst,
}
use remotehub.Base.Text.{Text, text_eq}
use remotehub.Connector.Inventory.Defs.{Address, Ports}
use remotehub.Connector.Access.Defs.{
  Time, Uuid, closed, is_open, closes_at, Changer, expiry, Scope, network, device_scope,
  group_scope, request_scope, Stored, AccessFile, set_stored,
}
use remotehub.Connector.Access.Queries.{ran_out}
use remotehub.Connector.Access.Store.{Dir, Io}
use remotehub.Connector.Access.Changes.{seconds, is_known, change}
use remotehub.Connector.Access.Effects.{same_scope, stored_at-set_stored}
use remotehub.Connector.Access.Listed.{IsListed}
use remotehub.Connector.Access.Always.{change-IsListed}
use remotehub.Connector.Access.Running.{Gate, load, reload, set, close_all, follow_round}
use remotehub.Connector.Access.Closing.{closing_change, set-dir, reload-dir}
use remotehub.Connector.Access.RanOut.{over, names, ran_out-over, unknown-over}

-- The calls that a change needs work; the journal may fail, and the reading again.
pub record Works (io : Io) : Type 0 where
  pub inventory : io.reads_inventory ≡ true
  pub access : io.reads_access ≡ true
  pub written : io.writes_access ≡ true

of_same_scope : (a b : Scope) → same_scope a b ≡ true → a ≡ b
of_same_scope network network h = refl
of_same_scope (device_scope a) (device_scope b) h = ap device_scope (eq_of_== h)
of_same_scope (group_scope a) (group_scope b) h = ap group_scope (eq_of_== h)
of_same_scope (request_scope a) (request_scope b) h = ap request_scope (eq_of_== h)
of_same_scope _ _ h = ground arith

same_scope_self : (a : Scope) → same_scope a a ≡ true
same_scope_self network = refl
same_scope_self (device_scope a) = ground (arith, text_eq.test_iff a a)
same_scope_self (group_scope a) = ground (arith, text_eq.test_iff a a)
same_scope_self (request_scope a) = ground arith

-- A scope that is written closed is not over.
closed-over :
    (now : Time) (file : AccessFile) (scope : Scope) (by : Option Changer) (at : Option Time)
    → let stored : Stored = record { access = closed; changed_by = by; changed_at = at } in
      over now (set_stored file scope stored) scope ≡ false
unfolding is_open closes_at
closed-over now file scope by at = ground (
  arith,
  stored_at-set_stored file scope scope
      (record { access = closed; changed_by = by; changed_at = at }),
  same_scope_self scope,
)

module _ (show_uuid : Uuid → Text) (show_address : Address → Text) (show_ports : List Ports → Text)
    (lower : Text → Text) where
  closing-over :
      (io : Io) (now : Time) (scope : Scope) (by : Changer) (d : Dir)
      → Works io
      → IsListed d.access d.inventory
      → over now
          (change show_uuid show_address show_ports lower io scope closed by d).1.access
          scope
        ≡ false
  closing-over io now scope by d w l = elim (Bool-cases (is_known d.inventory d.access scope)) [
    | inl known ↦
        rw (known_change known) (closed-over now d.access scope (some by) (some (seconds io.now)))
    | inr unknown ↦
        rw (unknown_change unknown) (unknown-over now d.access d.inventory scope l unknown)
  ]
    where
      known_change :
          is_known d.inventory d.access scope ≡ true
          → (change show_uuid show_address show_ports lower io scope closed by d).1.access
            ≡ set_stored d.access scope (record {
              access = closed;
              changed_by = some by;
              changed_at = some (seconds io.now);
            })
      known_change k = unfold change in ground (arith, w.inventory, w.access, w.written)

      unknown_change :
          is_known d.inventory d.access scope ≡ false
          → (change show_uuid show_address show_ports lower io scope closed by d).1.access
            ≡ d.access
      unknown_change k = unfold change in ground (arith, w.inventory, w.access, w.written)

  still_not_over :
      (io : Io) (now : Time) (scope other : Scope) (by : Changer) (d : Dir)
      → over now d.access other ≡ false
      → over now
          (change show_uuid show_address show_ports lower io scope closed by d).1.access
          other
        ≡ false
  unfolding is_open closes_at
  still_not_over io now scope other by d h =
      elim (closing_change show_uuid show_address show_ports lower io scope other by d) [
        | inl same ↦ rw same h
        | inr gone ↦ rw gone refl
      ]

  close_all-over :
      (steps : ℕ → Io) (n : ℕ) (now : Time) (g : Gate) (scopes : List Scope) (other : Scope)
      → ((k : ℕ) → Works (steps k))
      → IsListed g.dir.access g.dir.inventory
      → (over now g.dir.access other ≡ false) ⊎ (names scopes other ≡ true)
      → over now
          (close_all show_uuid show_address show_ports lower steps n g scopes).dir.access
          other
        ≡ false
  unfolding close_all
  close_all-over steps n now g [] other w l (inl h) = h
  close_all-over steps n now g [] other w l (inr h) = cc
  close_all-over steps n now g (scope ∷ scopes) other w l h =
      let next =
        (set show_uuid show_address show_ports lower (steps n) (steps (suc n)) g scope closed
          expiry).1 in
      let same =
        set-dir show_uuid show_address show_ports lower (steps n) (steps (suc n)) g scope closed
          expiry in
      let listed =
        change-IsListed show_uuid show_address show_ports lower (steps n) scope closed expiry g.dir
          l in
      close_all-over steps (suc (suc n)) now next scopes other w (rw same listed)
        (rw same (later h))
    where
      later :
          ((over now g.dir.access other ≡ false) ⊎ (names (scope ∷ scopes) other ≡ true))
          → (over now
                (change show_uuid show_address show_ports lower
                  (steps n)
                  scope
                  closed
                  expiry
                  g.dir).1.access
                other
              ≡ false)
            ⊎ (names scopes other ≡ true)
      later (inl h) = inl (still_not_over (steps n) now scope other expiry g.dir h)
      later (inr h) = elim (Bool-cases (same_scope scope other)) [
        | inl y ↦ inl (
            subst
              (λ z.
                over now
                  (change show_uuid show_address show_ports lower (steps n) scope closed expiry
                    g.dir).1.access
                  z
                ≡ false)
              (of_same_scope scope other y) (closing-over (steps n) now scope expiry g.dir (w n) l))
        | inr n ↦ inr (ground arith)
      ]

  reload-state : (io : Io) (g : Gate) → Works io → (reload io g).state.access ≡ g.dir.access
  unfolding reload load
  reload-state io g w = ground (arith, w.inventory, w.access)

  -- A round of `follow` whose reads and writes work closes all that ran out: if the access names only
  -- what is on the list, no scope is left afterwards that has an end and is not open. The journal may
  -- fail.
  pub follow_round-closes :
      (io : Io) (steps : ℕ → Io) (now : Time) (g : Gate) (other : Scope)
      → Works io
      → ((k : ℕ) → Works (steps k))
      → IsListed g.dir.access g.dir.inventory
      → over now
          (follow_round show_uuid show_address show_ports lower io steps now g).dir.access
          other
        ≡ false
  unfolding follow_round
  follow_round-closes io steps now g other w ws l =
      let seen = reload io g in
      let dir = reload-dir show_uuid show_address show_ports lower io g in
      close_all-over steps 0 now seen (ran_out seen.state now) other ws (rw dir l)
        (elim (Bool-cases (over now g.dir.access other)) [
          | inl y ↦ inr (ran_out-over seen.state now other (rw (reload-state io g w) y))
          | inr n ↦ inl (rw dir n)
        ])
