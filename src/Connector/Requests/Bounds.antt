-- ===== src/Connector/Requests/Bounds.antt =====
-- Which answers of remotehub `parse` of crates/connector/src/requests.rs takes.
use remotehub.Base.{
  ℕ, Bool, true, ◌&&◌, not, none, List, [], ◌∷◌, leb, ◌≤◌, all, any, is_empty, length, contains,
  nat_eq, ◌⊎◌, inr, arith, ◌≡◌, refl, ◌↔◌,
}
use remotehub.Base.Text.{Text}
use remotehub.Base.Sort.{distinct}
use remotehub.Connector.Access.Defs.{Uuid, RequestTarget, CustomerRequest}
use remotehub.Connector.Requests.Defs.{
  plain, host, check_targets, check_request, check_requests, parse, max_name, max_reason,
  max_targets, max_requests, max_pending_bytes, ids, is_odd,
}

-- 1 to `longest` characters, none of them odd.
abbrev pub is_plain : ℕ → Text → Bool
is_plain longest s = leb 1 (length s) && (leb (length s) longest && all (λ c. not (is_odd c)) s)

not-any : (p : ℕ → Bool) (s : Text) → not (any p s) ≡ all (λ c. not (p c)) s
not-any p [] = refl
not-any p (c ∷ s) = ground (arith, not-any p s)

plain-eq : (s : Text) (longest : ℕ) → plain s longest ≡ is_plain longest s
unfolding plain
plain-eq s longest = ground (arith, not-any is_odd s)

module _ (is_ip : Text → Bool) where
  abbrev pub is_target : RequestTarget → Bool
  is_target t = is_plain max_name t.name && (host is_ip t.host && leb 1 t.port)

  -- A name and a reason that read as what they are, a quarter of an hour to a day, 1 to 20 targets,
  -- each with a name, a host and a port.
  abbrev pub is_bounded : CustomerRequest → Bool
  is_bounded r =
      is_plain max_name r.requester
      && (is_plain max_reason r.reason
          && ((leb 15 r.minutes && leb r.minutes 1440)
              && ((leb 1 (length r.targets) && leb (length r.targets) max_targets)
                  && all is_target r.targets)))

  check_targets-none :
      (id : Uuid) (ts : List RequestTarget)
      → (check_targets is_ip id ts ≡ none) ↔ (all is_target ts ≡ true)
  unfolding check_targets
  check_targets-none id [] = ground arith
  check_targets-none id (t ∷ ts) =
      ground (arith, check_targets-none id ts, plain-eq t.name max_name)

  check_request-none :
      (r : CustomerRequest) → (check_request is_ip r ≡ none) ↔ (is_bounded r ≡ true)
  unfolding check_request
  check_request-none r = ground (
    arith,
    check_targets-none r.id r.targets,
    plain-eq r.requester max_name,
    plain-eq r.reason max_reason,
    no_targets r.targets,
  )
    where
      no_targets : (ts : List RequestTarget) → is_empty ts ≡ not (leb 1 (length ts))
      no_targets [] = refl
      no_targets (t ∷ ts) = ground arith

  -- None of the requests has an id that was seen.
  abbrev unseen : List Uuid → List CustomerRequest → Bool
  unseen seen rs = all (λ r. not (contains seen r.id)) rs

  unseen-cons :
      (id : Uuid) (seen : List Uuid) (rs : List CustomerRequest)
      → unseen (id ∷ seen) rs ≡ (not (contains (ids rs) id) && unseen seen rs)
  unseen-cons id seen [] = refl
  unseen-cons id seen (r ∷ rs) = ground (arith, unseen-cons id seen rs)

  check_requests-none :
      (seen : List Uuid) (rs : List CustomerRequest)
      → (check_requests is_ip seen rs ≡ none)
        ↔ ((unseen seen rs ≡ true) × (distinct (ids rs) ≡ true) × (all is_bounded rs ≡ true))
  unfolding check_requests
  check_requests-none seen [] = ground arith
  check_requests-none seen (r ∷ rs) =
      ground (
        arith,
        check_requests-none (r.id ∷ seen) rs,
        unseen-cons r.id seen rs,
        check_request-none r,
      )

  unseen-nil : (rs : List CustomerRequest) → unseen [] rs ≡ true
  unseen-nil [] = refl
  unseen-nil (r ∷ rs) = unseen-nil rs

  -- An answer of remotehub is taken, and whole, exactly if it has at most 65536 bytes, reads as a list
  -- of at most 20 requests with ids of their own, and each request is bounded: names and reason of
  -- plain characters and limited length, 15 to 1440 minutes, 1 to 20 targets, each with a plain name,
  -- a host and a port that is not 0.
  pub parse_iff :
      (from_slice : List ℕ → Text ⊎ List CustomerRequest) (bytes : List ℕ)
      (rs : List CustomerRequest)
      → (parse is_ip from_slice bytes ≡ inr rs) ↔ (
          (length bytes ≤ max_pending_bytes)
          × (from_slice bytes ≡ inr rs)
          × (length rs ≤ max_requests)
          × (distinct (ids rs) ≡ true)
          × (all is_bounded rs ≡ true))
  unfolding parse
  parse_iff from_slice bytes rs = ground (arith, check_requests-none [] rs, unseen-nil rs)
