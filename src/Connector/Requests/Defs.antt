-- ===== src/Connector/Requests/Defs.antt =====
-- crates/connector/src/requests.rs: the requests for access from remotehub, and the customer's answers.
-- What `serde_json` reads and whether `IpAddr` reads a text are parameters.
use remotehub.Base.{
  ℕ, ◌+◌, Bool, true, false, ◌&&◌, ◌||◌, not, Option, none, some, List, [], ◌∷◌, map, if◌then◌else◌,
  ltb, ◌=?◌, ◌==◌, any, all, find, filter, is_empty, length, contains, nat_eq, ◌⊎◌, inl, inr, suc,
  zero, ◌++◌,
}
use remotehub.Base.Text.{Text, text, is_control, is_ascii_alphanumeric, within, trim, split_by}
use remotehub.Connector.Access.Defs.{Uuid, RequestTarget, CustomerRequest}

-- crates/connector/src/protocol.rs
abbrev pub max_pending_bytes : ℕ
max_pending_bytes = 65_536

abbrev pub max_requests : ℕ
max_requests = 20

abbrev pub max_targets : ℕ
max_targets = 20

abbrev pub max_reason : ℕ
max_reason = 500

abbrev pub max_name : ℕ
max_name = 200

pub record Answer : Type 0 where
  pub id : Uuid
  pub approved : Bool
  pub by : Text
  pub until : Option Text

pub data RequestsError : Type 0 where
  too_long : RequestsError
  malformed : Text → RequestsError
  too_many : RequestsError
  twice : Uuid → RequestsError
  invalid : Uuid → Text → RequestsError

-- Characters that change the direction of text or take no space.
abbrev pub hidden : ℕ → Bool
hidden c =
    (c =? 0x061c)
    || (within 0x200b 0x200f c
        || (within 0x202a 0x202e c || (within 0x2060 0x2069 c || (c =? 0xfeff))))

abbrev pub is_odd : ℕ → Bool
is_odd c = is_control c || hidden c

unfoldable pub plain : Text → ℕ → Bool
plain s longest = within 1 longest (length s) && not (any is_odd s)

abbrev pub take {ℓ} : {A : Type ℓ} → ℕ → List A → List A
take zero xs = []
take (suc n) [] = []
take (suc n) (x ∷ xs) = x ∷ take n xs

abbrev pub replacement : ℕ
replacement = 0xfffd

abbrev pub or_replacement : Text → Text
or_replacement [] = replacement ∷ []
or_replacement (c ∷ s) = c ∷ s

unfoldable pub readable : Text → ℕ → Text
unfolding trim
readable s longest =
    or_replacement (take longest (map (λ c. if is_odd c then replacement else c) (trim s)))

-- `str::len`: the bytes of the text as UTF-8.
abbrev pub utf8_width : ℕ → ℕ
utf8_width c = if ltb c 0x80 then 1 else if ltb c 0x800 then 2 else if ltb c 0x1_0000 then 3 else 4

abbrev pub byte_length : Text → ℕ
byte_length [] = 0
byte_length (c ∷ s) = utf8_width c + byte_length s

abbrev pub starts_with : ℕ → Text → Bool
starts_with c [] = false
starts_with c (d ∷ s) = d =? c

abbrev pub ends_with : ℕ → Text → Bool
ends_with c [] = false
ends_with c (d ∷ []) = d =? c
ends_with c (d ∷ (b ∷ s)) = ends_with c (b ∷ s)

abbrev pub host_label : Text → Bool
host_label label =
    within 1 63 (byte_length label)
    && (all (λ c. is_ascii_alphanumeric c || (c =? b'-')) label
        && (not (starts_with b'-' label) && not (ends_with b'-' label)))

module _ (is_ip : Text → Bool) where
  unfoldable pub host : Text → Bool
  unfolding split_by
  host s =
      if is_ip s
      then true
      else within 1 253 (byte_length s) && all host_label (split_by (λ c. c =? b'.') s)

  -- The loop over the targets of one request: the first thing that is wrong.
  unfoldable pub check_targets : Uuid → List RequestTarget → Option RequestsError
  unfolding plain host
  check_targets id [] = none
  check_targets id (t ∷ ts) =
      let rest = check_targets id ts in
      if not (plain t.name max_name)
      then some (invalid id (text "target name"))
      else if not (host t.host)
      then some (invalid id (text "target host"))
      else if t.port =? 0
      then some (invalid id (text "target port"))
      else rest

  -- The guards on one request, the one on its id before it.
  unfoldable pub check_request : CustomerRequest → Option RequestsError
  unfolding plain check_targets
  check_request r =
      if not (plain r.requester max_name)
      then some (invalid r.id (text "requester"))
      else if not (plain r.reason max_reason)
      then some (invalid r.id (text "reason"))
      else if not (within 15 1440 r.minutes)
      then some (invalid r.id (text "minutes"))
      else if is_empty r.targets || ltb max_targets (length r.targets)
      then some (invalid r.id (text "targets"))
      else check_targets r.id r.targets

  abbrev pub first_error : Option RequestsError → Option RequestsError → Option RequestsError
  first_error none rest = rest
  first_error (some e) rest = some e

  -- The loop of `parse`: `seen` holds the ids so far.
  unfoldable pub check_requests : List Uuid → List CustomerRequest → Option RequestsError
  unfolding check_request
  check_requests seen [] = none
  check_requests seen (r ∷ rs) =
      let rest = check_requests (r.id ∷ seen) rs in
      if contains seen r.id then some (twice r.id) else first_error (check_request r) rest

  abbrev pub or_error :
      List CustomerRequest → Option RequestsError → RequestsError ⊎ List CustomerRequest
  or_error rs none = inr rs
  or_error rs (some e) = inl e

  module _ (from_slice : List ℕ → Text ⊎ List CustomerRequest) where
    unfoldable pub parse : List ℕ → RequestsError ⊎ List CustomerRequest
    unfolding check_requests
    parse bytes =
        if ltb max_pending_bytes (length bytes) then inl too_long else elim (from_slice bytes) [
          | inl e ↦ inl (malformed e)
          | inr rs ↦
              if ltb max_requests (length rs)
              then inl too_many
              else or_error rs (check_requests [] rs)
        ]

pub record State : Type 0 where
  pub listed : List CustomerRequest
  pub answers : List Answer

abbrev pub no_state : State
no_state = record { listed = []; answers = [] }

abbrev pub ids : List CustomerRequest → List Uuid
ids = map (λ r. r.id)

-- `Requests::listed`: what it returns, and the state after it.
unfoldable pub list_requests : State → List CustomerRequest → List CustomerRequest × State
list_requests s requests = (
  filter (λ r. not (contains (ids s.listed) r.id)) requests,
  record { listed = requests; answers = filter (λ a. contains (ids requests) a.id) s.answers },
)

unfoldable pub waiting : State → List CustomerRequest
waiting s = filter (λ r. not (any (λ a. a.id == r.id) s.answers)) s.listed

unfoldable pub get_request : State → Uuid → Option CustomerRequest
unfolding waiting
get_request s id = find (λ r. r.id == id) (waiting s)

unfoldable pub answer : State → Answer → State
answer s a = record s { answers = s.answers ++ a ∷ [] }
