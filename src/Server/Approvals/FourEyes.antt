-- ===== src/Server/Approvals/FourEyes.antt =====
-- No request is approved by the one who asked.
use remotehub.Base.{
  ℕ, String, true, false, ◌||◌, Option, none, some, List, [], ◌∷◌, ◌++◌, inl, inr, arith, ◌≡◌, refl,
  sym, subst, if◌then◌else◌, ◌=?◌, all, any, find, is_empty, length, ltb, find-eq-some, Bool-cases,
}
use remotehub.Base.Int.{ℤ}
use remotehub.Base.Decimal.{all-append}
use remotehub.Base.Text.{Text, trim}
use remotehub.Catalog.Defs.{Role, Uuid, ObjectId, parse_role}
use remotehub.Catalog.Roles.{effective_role, may_request, may_approve}
use remotehub.Server.Approvals.{
  Request, Tables, Asker, is_pending, create_request, new_request, catalog_at, target_of,
  is_waiting, insert_request, with_minutes, with_known_role, if_seen, with_principal, is_collection,
  columns, minutes_of,
}
use remotehub.Server.Approvals.Decisions.{
  Decision, has_id, decided, as_cancelled, decide, cancel, cancel_found, cancel_on, decide_on,
  decide_found,
}
use remotehub.Server.Approvals.Rows.{is_fair, unique_ids, update_id_unique, update_id_fair}

-- The ids are distinct, and what is approved was approved by another than the requester.
abbrev pub IsFair : Tables → Type 0
IsFair t = (unique_ids t.requests ≡ true) × (all is_fair t.requests ≡ true)

decided-is_fair :
    (decision : Decision) (by : Uuid) (now : ℕ) (r : Request)
    → (r.requester_id =? by) ≡ false
    → is_fair (decided decision by now r) ≡ true
decided-is_fair Decision.approve by now r h = rw h refl
decided-is_fair Decision.deny by now r h = refl

decide_on-IsFair :
    (t : Tables) (asker : Asker) (now : ℕ) (decision : Decision) (r : Request) (o : Option ObjectId)
    → find (has_id r.id) t.requests ≡ some r
    → IsFair t
    → IsFair (decide_on t asker now decision r o).0
decide_on-IsFair t asker now decision r none e h = h
decide_on-IsFair t asker now decision r (some target) e h =
    elim (Bool-cases (may_approve (catalog_at t now) asker.subject target)) [
      | inr n ↦ rw (n, if◌then◌else◌) h
      | inl may ↦ elim (Bool-cases (r.requester_id =? asker.user_id)) [
        | inl own ↦ rw (may, if◌then◌else◌, own, if◌then◌else◌) h
        | inr other ↦ elim (Bool-cases (is_pending r.status)) [
          | inr n ↦ rw (may, if◌then◌else◌, other, if◌then◌else◌, n, if◌then◌else◌) h
          | inl waits ↦
              rw (may, if◌then◌else◌, other, if◌then◌else◌, waits, if◌then◌else◌)
                (
                  update_id_unique (decided decision asker.user_id now) (λ x. refl) r.id t.requests
                      h.0,
                  update_id_fair (decided decision asker.user_id now) (λ x. refl) r.id t.requests r
                      h.0 h.1 e (decided-is_fair decision asker.user_id now r other),
                )
        ]
      ]
    ]

cancel_on-IsFair :
    (t : Tables) (r : Request) (o : Option ObjectId)
    → find (has_id r.id) t.requests ≡ some r
    → IsFair t
    → IsFair (cancel_on t r o).0
cancel_on-IsFair t r none e h = h
cancel_on-IsFair t r (some target) e h = (
  update_id_unique as_cancelled (λ x. refl) r.id t.requests h.0,
  update_id_fair as_cancelled (λ x. refl) r.id t.requests r h.0 h.1 e refl,
)

-- A row that is found by an id has it.
found_id : (id : Uuid) (rs : List Request) (r : Request) → find (has_id id) rs ≡ some r → r.id ≡ id
found_id id rs r e = ground (arith, find-eq-some (has_id id) {a = r} rs e)

found_own :
    (id : Uuid) (rs : List Request) (r : Request)
    → find (has_id id) rs ≡ some r
    → find (has_id r.id) rs ≡ some r
found_own id rs r e = subst (λ j. find (has_id j) rs ≡ some r) (sym (found_id id rs r e)) e

decide-IsFair :
    (t : Tables) (asker : Asker) (now : ℕ) (id : Uuid) (decision : Decision)
    → IsFair t
    → IsFair (decide t asker now id decision).0
unfolding decide
decide-IsFair t asker now id decision h = of_found (find (has_id id) t.requests) refl
  where
    of_found :
        (o : Option Request)
        → find (has_id id) t.requests ≡ o
        → IsFair (decide_found t asker now decision o).0
    of_found none e = h
    of_found (some r) e =
        decide_on-IsFair t asker now decision r (target_of r) (found_own id t.requests r e) h

cancel-IsFair : (t : Tables) (asker : Asker) (id : Uuid) → IsFair t → IsFair (cancel t asker id).0
unfolding cancel
cancel-IsFair t asker id h = of_found (find (has_id id) t.requests) refl
  where
    of_found :
        (o : Option Request) → find (has_id id) t.requests ≡ o → IsFair (cancel_found t asker o).0
    of_found none e = h
    of_found (some r) e = elim (Bool-cases (r.requester_id =? asker.user_id)) [
      | inr n ↦ rw (n, if◌then◌else◌) h
      | inl own ↦ elim (Bool-cases (is_pending r.status)) [
        | inr n ↦ rw (own, if◌then◌else◌, n, if◌then◌else◌) h
        | inl waits ↦
            rw (own, if◌then◌else◌, waits, if◌then◌else◌)
              (cancel_on-IsFair t r (target_of r) (found_own id t.requests r e) h)
      ]
    ]

-- A new row that waits, with an id of its own.
added-IsFair :
    (t : Tables) (r : Request)
    → any (has_id r.id) t.requests ≡ false
    → is_fair r ≡ true
    → IsFair t
    → IsFair (record t { requests = t.requests ++ r ∷ [] })
added-IsFair t r fresh fair h = (unique-added t.requests fresh h.0, rw (all-append, h.1, fair) refl)
  where
    any-added :
        (id : Uuid) (rs : List Request)
        → any (has_id id) (rs ++ r ∷ []) ≡ (any (has_id id) rs || has_id id r)
    any-added id [] = ground arith
    any-added id (x ∷ rs) = ground (arith, any-added id rs)

    unique-added :
        (rs : List Request)
        → any (has_id r.id) rs ≡ false
        → unique_ids rs ≡ true
        → unique_ids (rs ++ r ∷ []) ≡ true
    unique-added [] fresh h = refl
    unique-added (x ∷ rs) fresh h = ground (arith, any-added x.id rs, unique-added rs)

module _ (t : Tables) (h : IsFair t) (id : Uuid) (fresh : any (has_id id) t.requests ≡ false)
    (asker : Asker) where
  insert-IsFair :
      (sid : String) (role : Role) (minutes : ℕ) (reason : Text) (target : ObjectId)
      → IsFair (insert_request t id asker sid role minutes reason (columns target)).0
  insert-IsFair sid role minutes reason target =
      elim (Bool-cases (any (is_waiting asker.user_id role (columns target)) t.requests)) [
        | inl y ↦ rw (y, if◌then◌else◌) h
        | inr n ↦
            rw (n, if◌then◌else◌)
              (added-IsFair t (new_request id asker sid role minutes reason (columns target)) fresh
                refl h)
      ]

  with_minutes-IsFair :
      (sid : String) (role : Role) (o : Option ℕ) (reason : Text) (target : ObjectId)
      → IsFair (with_minutes t id asker sid role o reason target).0
  with_minutes-IsFair sid role none reason target = h
  with_minutes-IsFair sid role (some n) reason target =
      elim (Bool-cases (is_empty (trim reason) || ltb 500 (length (trim reason)))) [
        | inl y ↦ rw (y, if◌then◌else◌) h
        | inr m ↦ rw (m, if◌then◌else◌) (insert-IsFair sid role n (trim reason) target)
      ]

  with_known_role-IsFair :
      (now : ℕ) (sid : String) (target : ObjectId) (o : Option Role) (minutes : ℤ) (reason : Text)
      → IsFair (with_known_role t id asker now sid target o minutes reason).0
  with_known_role-IsFair now sid target none minutes reason = h
  with_known_role-IsFair now sid target (some role) minutes reason =
      elim (Bool-cases (may_request (catalog_at t now) asker.subject role target)) [
        | inl y ↦
            rw (y, if◌then◌else◌) (with_minutes-IsFair sid role (minutes_of minutes) reason target)
        | inr n ↦ rw (n, if◌then◌else◌) h
      ]

  with_principal-IsFair :
      (now : ℕ) (target : ObjectId) (role : String) (minutes : ℤ) (reason : Text)
      (o : Option String)
      → IsFair (with_principal t id asker now target role minutes reason o).0
  with_principal-IsFair now target role minutes reason none = h
  with_principal-IsFair now target role minutes reason (some sid) =
      seen (effective_role (catalog_at t now) asker.subject target)
    where
      seen : (o : Option Role) → IsFair (if_seen t id asker now sid target role minutes reason o).0
      seen none = h
      seen (some held) = with_known_role-IsFair now sid target (parse_role role) minutes reason

  create-IsFair :
      (now : ℕ) (target : ObjectId) (role : String) (minutes : ℤ) (reason : Text)
      → IsFair (create_request t id asker now target role minutes reason).0
  unfolding create_request
  create-IsFair now target role minutes reason = elim (Bool-cases (is_collection target)) [
    | inl y ↦ rw (y, if◌then◌else◌) h
    | inr n ↦
        rw (n, if◌then◌else◌) (with_principal-IsFair now target role minutes reason asker.principal)
  ]

-- What happens to the tables: requests with a fresh id, decisions and cancellations, of anyone.
pub data Step : Tables → Tables → Type 0 where
  asks :
      {t : Tables} (id : Uuid) (asker : Asker) (now : ℕ) (target : ObjectId) (role : String)
      (minutes : ℤ) (reason : Text)
      → any (has_id id) t.requests ≡ false
      → Step t (create_request t id asker now target role minutes reason).0
  decides :
      {t : Tables} (asker : Asker) (now : ℕ) (id : Uuid) (decision : Decision)
      → Step t (decide t asker now id decision).0
  cancels : {t : Tables} (asker : Asker) (id : Uuid) → Step t (cancel t asker id).0

pub data Steps : Tables → Tables → Type 0 where
  done : {t : Tables} → Steps t t
  then_step : {t u v : Tables} → Step t u → Steps u v → Steps t v

step-IsFair : {t u : Tables} → Step t u → IsFair t → IsFair u
step-IsFair {t} (asks id asker now target role minutes reason fresh) h =
    create-IsFair t h id fresh asker now target role minutes reason
step-IsFair {t} (decides asker now id decision) h = decide-IsFair t asker now id decision h
step-IsFair {t} (cancels asker id) h = cancel-IsFair t asker id h

-- Four eyes: whatever is asked for with a fresh id, decided and cancelled, by anyone and at any time,
-- ids stay distinct and each request that is approved was approved by a user who is not the requester,
-- if that was so before, as it is without requests.
pub Steps-IsFair : {t u : Tables} → Steps t u → IsFair t → IsFair u
Steps-IsFair done h = h
Steps-IsFair (then_step one rest) h = Steps-IsFair rest (step-IsFair one h)
