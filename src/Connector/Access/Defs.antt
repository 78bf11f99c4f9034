-- ===== src/Connector/Access/Defs.antt =====
-- crates/connector/src/access.rs: what is open, until when, and who changed it. A point in time is
-- the count of nanoseconds since the earliest one of `OffsetDateTime`, which begins a second.
use remotehub.Base.{
  ℕ, Bool, true, false, Option, none, some, List, [], ◌∷◌, ◌++◌, map, if◌then◌else◌, ltb, filter,
  nat_eq,
}
use remotehub.Base.Map.{get, remove}
use remotehub.Base.BTreeMap.{BTreeMap, put, nat_order, text_order}
use remotehub.Base.Text.{Text, text_eq}
use remotehub.Connector.Inventory.Defs.{Device, Inventory}

abbrev pub Time : Type 0
Time = ℕ

abbrev pub Uuid : Type 0
Uuid = ℕ

pub data Access : Type 0 where
  closed : Access
  open_until : Option Time → Access

-- `Open { until: None }`
pattern abbrev open_without_end : Access
open_without_end = open_until none

unfoldable pub is_open : Access → Time → Bool
is_open closed now = false
is_open (open_until none) now = true
is_open (open_until (some until)) now = ltb now until

unfoldable pub closes_at : Access → Option Time
closes_at closed = none
closes_at (open_until until) = until

pub data Changer : Type 0 where
  web : Text → Changer
  command_line : Changer
  expiry : Changer

pub data Scope : Type 0 where
  network : Scope
  device_scope : Text → Scope
  group_scope : Text → Scope
  request_scope : Uuid → Scope

pub record Stored : Type 0 where
  pub access : Access
  pub changed_by : Option Changer
  pub changed_at : Option Time

abbrev pub no_access : Stored
no_access = record { access = closed; changed_by = none; changed_at = none }

pub record RequestTarget : Type 0 where
  pub name : Text
  pub host : Text
  pub port : ℕ

pub record CustomerRequest : Type 0 where
  pub id : Uuid
  pub requester : Text
  pub reason : Text
  pub minutes : ℕ
  pub targets : List RequestTarget

pub record Grant : Type 0 where
  pub requester : Text
  pub reason : Text
  pub targets : List RequestTarget
  pub stored : Stored

pub record AccessFile : Type 0 where
  pub network : Stored
  pub devices : BTreeMap Text Stored
  pub groups : BTreeMap Text Stored
  pub requests : BTreeMap Uuid Grant

abbrev pub no_file : AccessFile
no_file = record { network = no_access; devices = []; groups = []; requests = [] }

abbrev pub or_closed : Option Stored → Stored
or_closed none = no_access
or_closed (some s) = s

abbrev pub stored_of : Option Grant → Option Stored
stored_of none = none
stored_of (some g) = some g.stored

unfoldable pub stored_at : AccessFile → Scope → Stored
stored_at file network = file.network
stored_at file (device_scope name) = or_closed (get file.devices name)
stored_at file (group_scope name) = or_closed (get file.groups name)
stored_at file (request_scope id) = or_closed (stored_of (get file.requests id))

abbrev pub is_closed : Access → Bool
is_closed closed = true
is_closed (open_until until) = false

-- `get_mut` of a request, and the write to its `stored`.
abbrev pub with_stored : BTreeMap Uuid Grant → Uuid → Stored → Option Grant → BTreeMap Uuid Grant
with_stored requests id stored none = requests
with_stored requests id stored (some g) = put requests id (record g { stored = stored })

unfoldable pub set_stored : AccessFile → Scope → Stored → AccessFile
set_stored file network stored = record file { network = stored }
set_stored file (device_scope name) stored = record file { devices = put file.devices name stored }
set_stored file (group_scope name) stored = record file { groups = put file.groups name stored }
set_stored file (request_scope id) stored = record file {
  requests =
      if is_closed stored.access
      then remove file.requests id
      else with_stored file.requests id stored (get file.requests id);
}

abbrev pub entries {ℓ} :
    {K : Type ℓ} {V : Type 0} → (K → Scope) → (V → Stored) → BTreeMap K V → List (Scope × Stored)
entries scope stored [] = []
entries scope stored ((k, v) ∷ m) = (scope k, stored v) ∷ entries scope stored m

unfoldable pub all_stored : AccessFile → List (Scope × Stored)
all_stored file =
    (network, file.network) ∷ entries device_scope (λ s. s) file.devices
    ++ (entries group_scope (λ s. s) file.groups
        ++ entries request_scope (λ g. g.stored) file.requests)

pub record Snapshot : Type 0 where
  pub access : AccessFile
  pub inventory : Inventory

-- How far something is open: none while closed, `some none` without end.
abbrev pub End : Type 0
End = Option (Option Time)

abbrev pub max_time : Time → Time → Time
max_time a b = if ltb b a then a else b

unfoldable pub later : End → End → End
later none other = other
later (some a) none = some a
later (some none) (some b) = some none
later (some (some a)) (some none) = some none
later (some (some a)) (some (some b)) = some (some (max_time a b))

-- `is_open(now).then(|| closes_at())`
abbrev pub end_at : Access → Time → End
end_at access now = if is_open access now then some (closes_at access) else none

unfoldable pub network_open : Snapshot → Time → Bool
network_open s now = is_open s.access.network.access now

unfoldable pub network_until : Snapshot → Time → End
network_until s now = end_at s.access.network.access now

abbrev pub scopes_of : Device → List Scope
scopes_of d = device_scope d.name ∷ map group_scope d.groups

-- The chain of `map`, `filter`, `map` and `fold` over the scopes of a device.
unfoldable pub latest_end : AccessFile → End → List Scope → Time → End
latest_end file end [] now = end
latest_end file end (scope ∷ scopes) now =
    latest_end file
      (if is_open (stored_at file scope).access now
        then later end (some (closes_at (stored_at file scope).access))
        else end)
      scopes now

unfoldable pub device_until : Snapshot → Device → Time → End
device_until s d now = latest_end s.access none (scopes_of d) now

abbrev pub is_some {ℓ} : {A : Type ℓ} → Option A → Bool
is_some none = false
is_some (some a) = true

unfoldable pub open_devices : Snapshot → Time → List Device
open_devices s now = filter (λ d. is_some (device_until s d now)) s.inventory.devices

unfoldable pub open_requests : Snapshot → Time → List (Uuid × Grant)
open_requests s now = filter (λ r. is_open r.1.stored.access now) s.access.requests
