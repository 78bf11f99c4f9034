-- ===== src/Connector/Access/Running.antt =====
-- `Gate` of crates/connector/src/access.rs: the access as the running connector sees it, and the round
-- of `follow` that closes what ran out. What a round logs is left out. Another process may change the
-- directory between two rounds.
use remotehub.Base.{ℕ, suc, Option, none, some, List, [], ◌∷◌}
use remotehub.Connector.Inventory.Defs.{Address, Ports}
use remotehub.Base.Text.{Text}
use remotehub.Connector.Access.Defs.{Time, Uuid, Access, closed, Changer, expiry, Scope, Snapshot}
use remotehub.Connector.Access.Queries.{ran_out}
use remotehub.Connector.Access.Store.{
  Dir, Io, Outcome, done, failed, Op, ◌>>=◌, load_access, load_inventory,
}
use remotehub.Connector.Access.Changes.{change}

pub record Gate : Type 0 where
  pub dir : Dir
  pub state : Snapshot

-- `load`: the access, then the list.
unfoldable pub load : Io → Op Snapshot
unfolding load_access load_inventory
load io = do
  file ← load_access io
  list ← load_inventory io
  λ d. (done (record { access = file; inventory = list }), d)

-- `Gate::new`
abbrev pub gate_of : Dir → Outcome Snapshot → Option Gate
gate_of d (done s) = some (record { dir = d; state = s })
gate_of d (failed e) = none

unfoldable pub new_gate : Io → Dir → Option Gate
unfolding load
new_gate io d = gate_of d (load io d).0

-- What is loaded takes the place of what was seen; what cannot be read changes nothing.
abbrev pub taken_over : Gate → Outcome Snapshot → Gate
taken_over g (done s) = record g { state = s }
taken_over g (failed e) = g

unfoldable pub reload : Io → Gate → Gate
unfolding load
reload io g = taken_over g (load io g.dir).0

module _ (show_uuid : Uuid → Text) (show_address : Address → Text) (show_ports : List Ports → Text)
    (lower : Text → Text) where
  abbrev pub set_after : Io → Gate → Outcome (Unit {0}) × Dir → Outcome (Unit {0}) × Gate
  set_after again g (done u, d) = (done u, reload again (record g { dir = d }))
  set_after again g (failed e, d) = (failed e, record g { dir = d })

  -- `Gate::set`: the change, with one run of calls, and the reading again, with another.
  unfoldable pub set : Io → Io → Gate → Scope → Access → Changer → Outcome (Unit {0}) × Gate
  unfolding change reload
  set io again g scope access by =
      set_after again g (change show_uuid show_address show_ports lower io scope access by g.dir)

  -- The loop of one round of `follow`, over the scopes that ran out. The calls of each step are given.
  unfoldable pub close_all : (ℕ → Io) → ℕ → Gate → List Scope → Gate
  unfolding set
  close_all io n g [] = g
  close_all io n g (scope ∷ scopes) =
      close_all io (suc (suc n)) (set (io n) (io (suc n)) g scope closed expiry).1 scopes

  -- A round of `follow`: the files are read, and what ran out is closed.
  unfoldable pub follow_round : Io → (ℕ → Io) → Time → Gate → Gate
  unfolding reload close_all
  follow_round io steps now g =
      let seen = reload io g in close_all steps 0 seen (ran_out seen.state now)
