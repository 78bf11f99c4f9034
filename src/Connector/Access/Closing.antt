-- ===== src/Connector/Access/Closing.antt =====
-- What a round of `Gate::follow` in crates/connector/src/access.rs does: it closes what ran out, and
-- opens nothing.
use remotehub.Base.{ℕ, suc, Option, some, List, [], ◌∷◌, arith, ◌≡◌, refl, ◌⊎◌, inl}
use remotehub.Base.Text.{Text}
use remotehub.Connector.Inventory.Defs.{Address, Ports}
use remotehub.Connector.Access.Defs.{
  Time, Uuid, Access, closed, Changer, expiry, Scope, Stored, AccessFile, stored_at, set_stored,
}
use remotehub.Connector.Access.Queries.{ran_out}
use remotehub.Connector.Access.Store.{Dir, Io}
use remotehub.Connector.Access.Changes.{seconds, change}
use remotehub.Connector.Access.Effects.{stored_at-set_stored}
use remotehub.Connector.Access.Running.{Gate, load, reload, set, close_all, follow_round}

-- What stands where a scope was closed: the same as before, or closed.
only_closes :
    (file : AccessFile) (scope other : Scope) (by : Option Changer) (at : Option Time)
    → let stored : Stored = record { access = closed; changed_by = by; changed_at = at } in
      (stored_at (set_stored file scope stored) other ≡ stored_at file other)
      ⊎ ((stored_at (set_stored file scope stored) other).access ≡ closed)
only_closes file scope other by at = ground (
  arith,
  stored_at-set_stored file scope other
      (record { access = closed; changed_by = by; changed_at = at }),
)

module _ (show_uuid : Uuid → Text) (show_address : Address → Text) (show_ports : List Ports → Text)
    (lower : Text → Text) where
  pub closing_change :
      (io : Io) (scope other : Scope) (by : Changer) (d : Dir)
      → let d' = (change show_uuid show_address show_ports lower io scope closed by d).1 in
        (stored_at d'.access other ≡ stored_at d.access other)
        ⊎ ((stored_at d'.access other).access ≡ closed)
  unfolding change
  closing_change io scope other by d =
      ground (arith, only_closes d.access scope other (some by) (some (seconds io.now)))

  pub reload-dir : (io : Io) (g : Gate) → (reload io g).dir ≡ g.dir
  unfolding reload load
  reload-dir io g = ground arith

  pub set-dir :
      (io again : Io) (g : Gate) (scope : Scope) (access : Access) (by : Changer)
      → (set show_uuid show_address show_ports lower io again g scope access by).1.dir
        ≡ (change show_uuid show_address show_ports lower io scope access by g.dir).1
  unfolding set
  set-dir io again g scope access by =
      let r = change show_uuid show_address show_ports lower io scope access by g.dir in
      ground (arith, reload-dir again (record g { dir = r.1 }))

  close_all-other :
      (steps : ℕ → Io) (n : ℕ) (g : Gate) (scopes : List Scope) (other : Scope)
      → let after = close_all show_uuid show_address show_ports lower steps n g scopes in
        (stored_at after.dir.access other ≡ stored_at g.dir.access other)
        ⊎ ((stored_at after.dir.access other).access ≡ closed)
  unfolding close_all
  close_all-other steps n g [] other = inl refl
  close_all-other steps n g (scope ∷ scopes) other =
      let next =
        (set show_uuid show_address show_ports lower (steps n) (steps (suc n)) g scope closed
          expiry).1 in
      ground (
        arith,
        close_all-other steps (suc (suc n)) next scopes other,
        closing_change (steps n) scope other expiry g.dir,
        set-dir (steps n) (steps (suc n)) g scope closed expiry,
      )

  -- Whichever reads and writes fail, a round opens nothing: each scope holds what it held before, with
  -- who changed it and when, or is closed.
  pub follow_round-opens_nothing :
      (io : Io) (steps : ℕ → Io) (now : Time) (g : Gate) (other : Scope)
      → let after = follow_round show_uuid show_address show_ports lower io steps now g in
        (stored_at after.dir.access other ≡ stored_at g.dir.access other)
        ⊎ ((stored_at after.dir.access other).access ≡ closed)
  unfolding follow_round
  follow_round-opens_nothing io steps now g other =
      let seen = reload io g in
      ground (arith, close_all-other steps 0 seen (ran_out seen.state now) other, reload-dir io g)
