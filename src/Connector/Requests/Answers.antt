-- ===== src/Connector/Requests/Answers.antt =====
-- The requests that wait for the customer, and the answers (crates/connector/src/requests.rs).
use remotehub.Base.{
  Bool, false, ◌&&◌, ◌||◌, not, none, List, [], ◌∷◌, ◌++◌, if◌then◌else◌, ◌==◌, ◌=?◌, any, find,
  filter, contains, nat_eq, arith, ◌≡◌, refl, ◌∙◌, Bool-cases, inl, inr,
}
use remotehub.Connector.Access.Defs.{Uuid, CustomerRequest}
use remotehub.Connector.Requests.Defs.{
  Answer, State, ids, list_requests, waiting, get_request, answer,
}

abbrev pub answered : List Answer → Uuid → Bool
answered answers id = any (λ a. a.id == id) answers

answered-append :
    (answers : List Answer) (a : Answer) (id : Uuid)
    → answered (answers ++ a ∷ []) id ≡ (answered answers id || (a.id == id))
answered-append [] a id = ground arith
answered-append (b ∷ answers) a id = ground (arith, answered-append answers a id)

-- Answers to what is listed stay.
answered-filter :
    (listed : List Uuid) (answers : List Answer) (id : Uuid)
    → answered (filter (λ a. contains listed a.id) answers) id
      ≡ (answered answers id && contains listed id)
answered-filter listed [] id = refl
answered-filter listed (a ∷ answers) id = elim (Bool-cases (a.id =? id)) [
  | inl same ↦ ground (arith, answered-filter listed answers id)
  | inr other ↦ ground (arith, answered-filter listed answers id)
]

find-waiting :
    (answers : List Answer) (rs : List CustomerRequest) (id : Uuid)
    → find (λ r. r.id == id) (filter (λ r. not (answered answers r.id)) rs)
      ≡ (if answered answers id then none else find (λ r. r.id == id) rs)
find-waiting answers [] id = ground arith
find-waiting answers (r ∷ rs) id = elim (Bool-cases (r.id =? id)) [
  | inl same ↦ ground (arith, find-waiting answers rs id)
  | inr other ↦ ground (arith, find-waiting answers rs id)
]

find-new :
    (listed : List Uuid) (rs : List CustomerRequest) (id : Uuid)
    → find (λ r. r.id == id) (filter (λ r. not (contains listed r.id)) rs)
      ≡ (if contains listed id then none else find (λ r. r.id == id) rs)
find-new listed [] id = ground arith
find-new listed (r ∷ rs) id = elim (Bool-cases (r.id =? id)) [
  | inl same ↦ ground (arith, find-new listed rs id)
  | inr other ↦ ground (arith, find-new listed rs id)
]

pub get_request-eq :
    (s : State) (id : Uuid)
    → get_request s id ≡ (if answered s.answers id then none else find (λ r. r.id == id) s.listed)
unfolding get_request waiting
get_request-eq s id = find-waiting s.answers s.listed id

not_listed :
    (rs : List CustomerRequest) (id : Uuid)
    → contains (ids rs) id ≡ false
    → find (λ r. r.id == id) rs ≡ none
not_listed [] id h = refl
not_listed (r ∷ rs) id h = ground (arith, not_listed rs id)

-- An answered request does not wait any more; every other one waits as before.
pub get_request-answer :
    (s : State) (a : Answer) (id : Uuid)
    → get_request (answer s a) id ≡ (if a.id == id then none else get_request s id)
unfolding answer
get_request-answer s a id =
    ground
      (arith, get_request-eq s id, get_request-eq (answer s a) id, answered-append s.answers a id)

-- When remotehub lists requests: the ones that wait are those of the new list that were not answered
-- while they were listed before; an answer is kept exactly if its request is still listed; and what is
-- returned are the requests of the new list with ids that were not listed before.
pub get_request-list_requests :
    (s : State) (rs : List CustomerRequest) (id : Uuid)
    → let (new, after) = list_requests s rs in
      (get_request after id ≡ (if answered s.answers id then none else find (λ r. r.id == id) rs))
      × (answered after.answers id ≡ (answered s.answers id && contains (ids rs) id))
      × (find (λ r. r.id == id) new
          ≡ (if contains (ids s.listed) id then none else find (λ r. r.id == id) rs))
unfolding list_requests
get_request-list_requests s rs id = (
  get_request-eq (list_requests s rs).1 id ∙ elim (Bool-cases (contains (ids rs) id)) [
    | inl listed ↦ ground (arith, answered-filter (ids rs) s.answers id)
    | inr gone ↦ ground (arith, answered-filter (ids rs) s.answers id, not_listed rs id gone)
  ],
  answered-filter (ids rs) s.answers id,
  find-new (ids s.listed) rs id,
)
