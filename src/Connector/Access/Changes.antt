-- ===== src/Connector/Access/Changes.antt =====
-- The operations of crates/connector/src/access.rs that change the access or the list, each with its
-- reads, guards, writes and journal entry in their order. How a `Uuid`, an address and a list of ports
-- are written as text, and `str::to_lowercase`, are parameters.
use remotehub.Base.{
  ◌-◌, ◌%◌, Bool, true, false, none, some, List, [], ◌++◌, map, if◌then◌else◌, nat_eq,
}
use remotehub.Base.Map.{remove, contains_key}
use remotehub.Base.BTreeMap.{put, nat_order}
use remotehub.Base.Text.{Text, text, text_eq}
use remotehub.Base.Decimal.{show}
use remotehub.Connector.Inventory.Defs.{
  Address, Ports, Device, Inventory, unknown, device, has_group, valid_name, add_device,
  remove_device, add_group, remove_group,
}
use remotehub.Connector.Access.Defs.{
  Time, Uuid, Access, closed, open_until, Changer, expiry, Scope, network, device_scope,
  group_scope, request_scope, RequestTarget, CustomerRequest, AccessFile, set_stored, is_some,
}
use remotehub.Connector.Access.Store.{
  Event, opened, closed_event, expired, device_added, device_removed, group_added, group_removed,
  request_received, request_approved, request_refused, Io, of_inventory, Op, ◌>>=◌, ◌>>◌, lift,
  require, load_inventory, load_access, save_access, save_inventory, append_event,
}

-- `replace_nanosecond(0)`
abbrev pub seconds : Time → Time
seconds at = at - at % 1_000_000_000

abbrev pub whole_seconds : Access → Access
whole_seconds closed = closed
whole_seconds (open_until none) = open_until none
whole_seconds (open_until (some until)) = open_until (some (seconds until))

unfoldable pub is_known : Inventory → AccessFile → Scope → Bool
is_known list file network = true
is_known list file (device_scope name) = is_some (device list name)
is_known list file (group_scope name) = has_group list name
is_known list file (request_scope id) = contains_key file.requests id

abbrev pub is_expiry : Changer → Bool
is_expiry expiry = true
is_expiry _ = false

abbrev pub change_event : Access → Changer → Scope → Event
change_event closed by scope = if is_expiry by then expired scope else closed_event by scope
change_event (open_until until) by scope = opened by until scope

-- `{name} ({host}:{port})`
abbrev pub target_text : RequestTarget → Text
target_text t = t.name ++ text " (" ++ t.host ++ text ":" ++ show t.port ++ text ")"

abbrev pub targets_text : List RequestTarget → List Text
targets_text = map target_text

module _ (show_uuid : Uuid → Text) (show_address : Address → Text) (show_ports : List Ports → Text)
    (lower : Text → Text) where
  abbrev pub scope_name : Scope → Text
  scope_name network = []
  scope_name (device_scope name) = name
  scope_name (group_scope name) = name
  scope_name (request_scope id) = show_uuid id

  unfoldable pub change : Io → Scope → Access → Changer → Op (Unit {0})
  unfolding load_inventory load_access save_access append_event
  change io scope access by = do
    list ← load_inventory io
    file ← load_access io
    require (is_known list file scope) (of_inventory (unknown (scope_name scope)))
    save_access io (
        set_stored file scope (record {
          access = whole_seconds access;
          changed_by = some by;
          changed_at = some (seconds io.now);
        }))
    append_event io (change_event (whole_seconds access) by scope)

  unfoldable pub approve : Io → CustomerRequest → Time → Changer → Op (Unit {0})
  unfolding load_access save_access append_event
  approve io request until by = do
    file ← load_access io
    save_access io (record file {
      requests = put file.requests request.id (record {
        requester = request.requester;
        reason = request.reason;
        targets = request.targets;
        stored = record {
          access = open_until (some (seconds until));
          changed_by = some by;
          changed_at = some (seconds io.now);
        };
      });
    })
    append_event io (
        request_approved by request.id request.requester request.reason
          (targets_text request.targets) (seconds until))

  unfoldable pub refuse : Io → CustomerRequest → Changer → Op (Unit {0})
  unfolding append_event
  refuse io request by = append_event io (
      request_refused by request.id request.requester request.reason (targets_text request.targets))

  unfoldable pub received : Io → CustomerRequest → Op (Unit {0})
  unfolding append_event
  received io request = append_event io (
      request_received request.id request.requester request.reason request.minutes
        (targets_text request.targets))

  unfoldable pub add_listed_device : Io → Device → Changer → Op (Unit {0})
  unfolding load_inventory save_inventory append_event
  add_listed_device io d by = do
    list ← load_inventory io
    after ← lift (add_device lower list d)
    save_inventory io after
    append_event io (device_added by d.name (show_address d.address) (show_ports d.ports) d.groups)

  unfoldable pub remove_listed_device : Io → Text → Changer → Op (Unit {0})
  unfolding load_inventory load_access save_access save_inventory append_event
  remove_listed_device io name by = do
    list ← load_inventory io
    after ← lift (remove_device list name)
    file ← load_access io
    save_access io (record file { devices = remove file.devices name })
    save_inventory io after
    append_event io (device_removed by name)

  unfoldable pub add_listed_group : Io → Text → Changer → Op (Unit {0})
  unfolding load_inventory save_inventory append_event
  add_listed_group io name by = do
    valid ← lift (valid_name name)
    list ← load_inventory io
    after ← lift (add_group lower list valid)
    save_inventory io after
    append_event io (group_added by valid)

  unfoldable pub remove_listed_group : Io → Text → Changer → Op (Unit {0})
  unfolding load_inventory load_access save_access save_inventory append_event
  remove_listed_group io name by = do
    list ← load_inventory io
    after ← lift (remove_group list name)
    file ← load_access io
    save_access io (record file { groups = remove file.groups name })
    save_inventory io after
    append_event io (group_removed by name)
