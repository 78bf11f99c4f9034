-- ===== src/Connector/Access/Store.antt =====
-- The files of the connector's data directory and what goes wrong with them, for the operations of
-- crates/connector/src/access.rs. A call that reads or writes a file works or fails as `Io` says; a
-- file is written beside itself and renamed, so a write that fails changes nothing. A file that is not
-- there reads as the empty one, and what was written is what is read.
use remotehub.Base.{ℕ, Bool, true, false, Option, List, [], ◌∷◌, ◌++◌, if◌then◌else◌}
use remotehub.Base.Text.{Text}
use remotehub.Connector.Inventory.Defs.{Inventory, InventoryError, Result, ok, err}
use remotehub.Connector.Access.Defs.{Time, Uuid, Changer, Scope, AccessFile}

-- crates/connector/src/journal.rs: what is written there.
pub data Event : Type 0 where
  opened : (by : Changer) → (until : Option Time) → Scope → Event
  closed_event : (by : Changer) → Scope → Event
  expired : Scope → Event
  device_added : (by : Changer) → (name address ports : Text) → (groups : List Text) → Event
  device_removed : (by : Changer) → (name : Text) → Event
  group_added : (by : Changer) → (name : Text) → Event
  group_removed : (by : Changer) → (name : Text) → Event
  request_received :
      (id : Uuid) → (requester reason : Text) → (minutes : ℕ) → (targets : List Text) → Event
  request_approved :
      (by : Changer)
      → (id : Uuid) → (requester reason : Text) → (targets : List Text) → (until : Time) → Event
  request_refused :
      (by : Changer) → (id : Uuid) → (requester reason : Text) → (targets : List Text) → Event
  connection_started : (id : Uuid) → (target : Text) → (device user : Option Text) → Event
  connection_ended :
      (id : Uuid)
      → (target : Text) → (device user : Option Text) → (seconds sent received : ℕ) → Event
  connection_refused : (target : Text) → (device user : Option Text) → (reason : Text) → Event
  signed_in : (user address : Text) → Event
  sign_in_failed : (user address : Text) → Event
  locked : (user : Text) → Event

pub record Entry : Type 0 where
  pub at : Time
  pub event : Event

pub record Dir : Type 0 where
  pub access : AccessFile
  pub inventory : Inventory
  pub journal : List Entry

-- Which calls of one operation work, and what the clock says at each of its two readings.
pub record Io : Type 0 where
  pub reads_inventory : Bool
  pub reads_access : Bool
  pub writes_access : Bool
  pub writes_inventory : Bool
  pub writes_journal : Bool
  pub reads_again : Bool
  pub now : Time
  pub journal_now : Time

pub data ChangeError : Type 0 where
  of_inventory : InventoryError → ChangeError
  io_error : ChangeError

pub data Outcome (A : Type 0) : Type 0 where
  done : A → Outcome A
  failed : ChangeError → Outcome A

abbrev pub Op : Type 0 → Type 0
Op A = Dir → Outcome A × Dir

abbrev pub go_on : {A B : Type 0} → Outcome A → (A → Op B) → Op B
go_on (done a) f d = f a d
go_on (failed e) f d = (failed e, d)

infixl 5 ◌>>=◌ ◌>>◌
abbrev pub ◌>>=◌ : {A B : Type 0} → Op A → (A → Op B) → Op B
◌>>=◌ m f d = go_on (m d).0 f (m d).1

abbrev pub ◌>>◌ : {B : Type 0} → Op (Unit {0}) → Op B → Op B
m >> k = m >>= λ _. k

abbrev pub fails : {A : Type 0} → ChangeError → Op A
fails e d = (failed e, d)

-- `?` on a change of the list.
abbrev pub lift : {A : Type 0} → Result A → Op A
lift (ok a) d = (done a, d)
lift (err e) d = (failed (of_inventory e), d)

abbrev pub require : Bool → ChangeError → Op (Unit {0})
require true e d = (done tt, d)
require false e d = (failed e, d)

unfoldable pub load_inventory : Io → Op Inventory
load_inventory io d = if io.reads_inventory then (done d.inventory, d) else (failed io_error, d)

unfoldable pub load_access : Io → Op AccessFile
load_access io d = if io.reads_access then (done d.access, d) else (failed io_error, d)

unfoldable pub save_access : Io → AccessFile → Op (Unit {0})
save_access io file d =
    if io.writes_access then (done tt, record d { access = file }) else (failed io_error, d)

unfoldable pub save_inventory : Io → Inventory → Op (Unit {0})
save_inventory io list d =
    if io.writes_inventory then (done tt, record d { inventory = list }) else (failed io_error, d)

-- `Journal::append`: a journal that cannot be written does not stop the operation.
unfoldable pub append_event : Io → Event → Op (Unit {0})
append_event io event d = (
  done tt,
  if io.writes_journal
      then record d { journal = d.journal ++ record { at = io.journal_now; event = event } ∷ [] }
      else d,
)
