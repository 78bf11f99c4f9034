-- ===== src/Connector/Access/Effects.antt =====
-- What `change` of crates/connector/src/access.rs does to the stored access, and that it does nothing
-- where it fails.
use remotehub.Base.{
  Bool, true, false, some, List, [], ◌∷◌, ◌++◌, if◌then◌else◌, ◌==◌, arith, ◌≡◌, refl, Bool-cases,
  Option-cases, inl, inr, nat_eq,
}
use remotehub.Base.Map.{get, contains_key, get-remove, get-contains_key, contains_key_of_none}
use remotehub.Base.BTreeMap.{get-put, nat_order, text_order}
use remotehub.Base.Text.{Text, text_eq}
use remotehub.Connector.Inventory.Defs.{Address, Ports}
use remotehub.Connector.Access.Defs.{
  Uuid, Access, Changer, Scope, network, device_scope, group_scope, request_scope, Stored,
  no_access, AccessFile, stored_at, set_stored, is_closed,
}
use remotehub.Connector.Access.Store.{Dir, Io, ChangeError, done, failed}
use remotehub.Connector.Access.Changes.{seconds, whole_seconds, is_known, change, change_event}

abbrev pub same_scope : Scope → Scope → Bool
same_scope network network = true
same_scope (device_scope a) (device_scope b) = a == b
same_scope (group_scope a) (group_scope b) = a == b
same_scope (request_scope a) (request_scope b) = a == b
same_scope _ _ = false

-- What a scope holds after a write to it: a closed request is forgotten, and a request that is not
-- there takes none.
abbrev pub kept : AccessFile → Scope → Stored → Stored
kept file (request_scope id) stored =
    if is_closed stored.access
    then no_access
    else if contains_key file.requests id
    then stored
    else no_access
kept file _ stored = stored

stored_at-set_request :
    (file : AccessFile) (id other : Uuid) (stored : Stored)
    → stored_at (set_stored file (request_scope id) stored) (request_scope other) ≡ (
        if id == other
        then kept file (request_scope id) stored
        else stored_at file (request_scope other))
unfolding stored_at set_stored
stored_at-set_request file id other stored = elim (Bool-cases (is_closed stored.access)) [
  | inl y ↦ rw (y, if◌then◌else◌) (rw (get-remove file.requests id other) (ground arith))
  | inr n ↦
      rw (n, if◌then◌else◌)
        (elim (Option-cases (get file.requests id)) [
          | inl e ↦ ground (arith, contains_key_of_none file.requests id e)
          | inr (g, e) ↦ rw e (
              rw (get-put file.requests id other (record g { stored = stored }))
                (ground (arith, get-contains_key file.requests id e)))
        ])
]

pub stored_at-set_stored :
    (file : AccessFile) (scope other : Scope) (stored : Stored)
    → stored_at (set_stored file scope stored) other
      ≡ (if same_scope scope other then kept file scope stored else stored_at file other)
unfolding stored_at set_stored
stored_at-set_stored file (device_scope a) (device_scope b) stored =
    rw (get-put file.devices a b stored) (ground arith)
stored_at-set_stored file (group_scope a) (group_scope b) stored =
    rw (get-put file.groups a b stored) (ground arith)
stored_at-set_stored file (request_scope a) (request_scope b) stored =
    stored_at-set_request file a b stored
stored_at-set_stored file network network stored = refl
stored_at-set_stored file _ _ stored = ground arith

module _ (show_uuid : Uuid → Text) (show_address : Address → Text) (show_ports : List Ports → Text)
    (lower : Text → Text) where
  -- A change that fails, at a read, at the write or since the scope is not known, leaves the access,
  -- the list and the journal as they were.
  pub change_failed :
      (io : Io) (scope : Scope) (access : Access) (by : Changer) (d : Dir) {e : ChangeError}
      → (change show_uuid show_address show_ports lower io scope access by d).0 ≡ failed e
      → (change show_uuid show_address show_ports lower io scope access by d).1 ≡ d
  unfolding change
  change_failed io scope access by d h = ground arith

  -- A change that works writes its access to its scope, with who made it and when, both in whole
  -- seconds, and to no other scope; a closed request is forgotten. The list stays, the scope was known,
  -- and the journal gets its one entry, if it can be written.
  pub change_done :
      (io : Io) (scope other : Scope) (access : Access) (by : Changer) (d : Dir)
      → (change show_uuid show_address show_ports lower io scope access by d).0 ≡ done tt
      → let after = (change show_uuid show_address show_ports lower io scope access by d).1 in
        (is_known d.inventory d.access scope ≡ true)
        × (stored_at after.access other ≡ (
            if same_scope scope other
            then kept d.access scope (record {
              access = whole_seconds access;
              changed_by = some by;
              changed_at = some (seconds io.now);
            })
            else stored_at d.access other))
        × (after.inventory ≡ d.inventory)
        × (after.journal ≡ (
            if io.writes_journal
            then d.journal
              ++ record {
                at = io.journal_now;
                event = change_event (whole_seconds access) by scope;
              }
                ∷ []
            else d.journal))
  unfolding change
  change_done io scope other access by d h = ground (
    arith,
    stored_at-set_stored d.access scope other (record {
      access = whole_seconds access;
      changed_by = some by;
      changed_at = some (seconds io.now);
    }),
  )
