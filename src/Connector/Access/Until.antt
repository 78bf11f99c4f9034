-- ===== src/Connector/Access/Until.antt =====
-- How long something is open (crates/connector/src/access.rs): the end that is told is exact. What is
-- open now stays open up to the end and no longer, if nobody changes anything.
use remotehub.Base.{
  Bool, true, false, ◌||◌, none, some, List, [], ◌∷◌, if◌then◌else◌, ltb, ◌≤◌, any, arith, ◌≡◌,
  refl, ◌∙◌, Bool-cases, inl, inr,
}
use remotehub.Connector.Inventory.Defs.{Device}
use remotehub.Connector.Access.Defs.{
  Time, Access, is_open, closes_at, Scope, AccessFile, stored_at, Snapshot, End, later, end_at,
  latest_end, device_until, is_some, scopes_of,
}

-- Whether an end lies after a time: what it says of that time.
abbrev pub covers_time : End → Time → Bool
covers_time none t = false
covers_time (some none) t = true
covers_time (some (some end)) t = ltb t end

pub covers_time-later :
    (a b : End) (t : Time) → covers_time (later a b) t ≡ (covers_time a t || covers_time b t)
unfolding later
covers_time-later a b t = ground arith

-- The end of an access that is open now says when it is open from now on.
pub covers_time-end_at :
    (a : Access) (now t : Time) → now ≤ t → covers_time (end_at a now) t ≡ is_open a t
unfolding is_open closes_at
covers_time-end_at a now t h = ground arith

pub open_end :
    (a : Access) (now t : Time)
    → now ≤ t
    → is_open a now ≡ true
    → covers_time (some (closes_at a)) t ≡ is_open a t
unfolding is_open closes_at
open_end a now t h y = ground arith

pub stays_closed :
    (a : Access) (now t : Time) → now ≤ t → is_open a now ≡ false → is_open a t ≡ false
unfolding is_open
stays_closed a now t h n = ground arith

-- One scope more, in the fold of `device_until`.
covers_time-step :
    (end : End) (a : Access) (now t : Time)
    → now ≤ t
    → covers_time (if is_open a now then later end (some (closes_at a)) else end) t
      ≡ (covers_time end t || is_open a t)
covers_time-step end a now t h = elim (Bool-cases (is_open a now)) [
  | inl y ↦
      rw (y, if◌then◌else◌)
        (covers_time-later end (some (closes_at a)) t ∙ rw (open_end a now t h y) refl)
  | inr n ↦ rw (n, if◌then◌else◌) (rw (stays_closed a now t h n) (ground arith))
]

latest_end-covers :
    (file : AccessFile) (end : End) (scopes : List Scope) (now t : Time)
    → now ≤ t
    → covers_time (latest_end file end scopes now) t
      ≡ (covers_time end t || any (λ scope. is_open (stored_at file scope).access t) scopes)
unfolding latest_end
latest_end-covers file end [] now t h = ground arith
latest_end-covers file end (scope ∷ scopes) now t h =
    let a = (stored_at file scope).access in
    let end' = if is_open a now then later end (some (closes_at a)) else end in
    latest_end-covers file end' scopes now t h ∙ rw (covers_time-step end a now t h) (ground arith)

is_some-step :
    (end : End) (a : Access) (now : Time)
    → is_some (if is_open a now then later end (some (closes_at a)) else end)
      ≡ (is_some end || is_open a now)
unfolding later
is_some-step end a now = ground arith

latest_end-is_some :
    (file : AccessFile) (end : End) (scopes : List Scope) (now : Time)
    → is_some (latest_end file end scopes now)
      ≡ (is_some end || any (λ scope. is_open (stored_at file scope).access now) scopes)
unfolding latest_end
latest_end-is_some file end [] now = ground arith
latest_end-is_some file end (scope ∷ scopes) now =
    let a = (stored_at file scope).access in
    let end' = if is_open a now then later end (some (closes_at a)) else end in
    latest_end-is_some file end' scopes now ∙ rw (is_some-step end a now) (ground arith)

-- Whether a device is open: itself, or one of its groups.
abbrev pub device_open : Snapshot → Device → Time → Bool
device_open s d t = any (λ scope. is_open (stored_at s.access scope).access t) (scopes_of d)

pub is_some-device_until :
    (s : Snapshot) (d : Device) (now : Time) → is_some (device_until s d now) ≡ device_open s d now
unfolding device_until
is_some-device_until s d now = latest_end-is_some s.access none (scopes_of d) now

-- The end of a device's access that is told at a time says, of every later time, whether the device
-- is open then, itself or through one of its groups, while nobody changes anything.
pub covers_time-device_until :
    (s : Snapshot) (d : Device) (now t : Time)
    → now ≤ t
    → covers_time (device_until s d now) t ≡ device_open s d t
unfolding device_until
covers_time-device_until s d now t h = latest_end-covers s.access none (scopes_of d) now t h
