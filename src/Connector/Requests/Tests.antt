-- ===== src/Connector/Requests/Tests.antt =====
-- A request for one target, and the customer's answers.
use remotehub.Base.{
  ℕ, Bool, true, false, none, List, [], ◌∷◌, ◌==◌, ◌≤◌, find, all, length, ◌≡◌, ◌↔◌, ◌⊎◌, refl,
  nat_eq, inl, inr,
}
use remotehub.Base.Text.{Text, text, text_eq, trim, split_by}
use remotehub.Base.Sort.{distinct}
use remotehub.Connector.Access.Defs.{CustomerRequest}
use remotehub.Connector.Requests.Defs.{
  twice, invalid, plain, readable, host, check_targets, check_request, check_requests, parse, ids,
  Answer, State, list_requests, waiting, get_request, answer, replacement, max_pending_bytes,
  max_requests,
}
use remotehub.Connector.Requests.Bounds.{is_bounded, parse_iff}
use remotehub.Connector.Requests.Answers.{answered, get_request-list_requests}

requests_code : Unit {0}
unfolding plain readable host check_targets check_request check_requests parse list_requests waiting
    get_request answer trim split_by
requests_code = tt

abbrev is_ip : Text → Bool
is_ip s = s == text "10.0.0.7"

abbrev panel : CustomerRequest
panel = record {
  id = 7;
  requester = text "bob";
  reason = text "update";
  minutes = 60;
  targets =
      record { name = text "panel"; host = text "10.0.0.7"; port = 80 }
      ∷ record { name = text "press"; host = text "press-2.local"; port = 22 }
      ∷ [];
}

-- What is read, whatever the bytes are.
abbrev reads : List CustomerRequest → List ℕ → Text ⊎ List CustomerRequest
reads rs bytes = inr rs

parse_tests :
    (parse is_ip (reads (panel ∷ [])) (b'{' ∷ []) ≡ inr (panel ∷ []))
    × (parse is_ip (reads (panel ∷ panel ∷ [])) [] ≡ inl (twice 7))
    × (parse is_ip (reads (record panel { minutes = 14 } ∷ [])) []
        ≡ inl (invalid 7 (text "minutes")))
    × (parse is_ip (reads (record panel { targets = [] } ∷ [])) []
        ≡ inl (invalid 7 (text "targets")))
    × (host is_ip (text "press-.local") ≡ false)
    × (readable (text " a\nb ") 2 ≡ b'a' ∷ replacement ∷ [])
unfolding requests_code
parse_tests = (refl, refl, refl, refl, refl, refl)

parse_iff_example : (parse is_ip (reads (panel ∷ [])) (b'{' ∷ []) ≡ inr (panel ∷ [])) ↔ (
    (length {A = ℕ} (b'{' ∷ []) ≤ max_pending_bytes)
    × (reads (panel ∷ []) (b'{' ∷ []) ≡ inr (panel ∷ []))
    × (length (panel ∷ []) ≤ max_requests)
    × (distinct (ids (panel ∷ [])) ≡ true)
    × (all (is_bounded is_ip) (panel ∷ []) ≡ true))
parse_iff_example = parse_iff is_ip (reads (panel ∷ [])) (b'{' ∷ []) (panel ∷ [])

abbrev refusal : Answer
refusal = record { id = 7; approved = false; by = text "ann"; until = none }

abbrev asked : State
asked = record { listed = panel ∷ record panel { id = 8 } ∷ []; answers = [] }

get_request-list_requests_example :
    let (new, after) = list_requests (answer asked refusal) (panel ∷ []) in
    (get_request after 7 ≡ none)
    × (answered after.answers 7 ≡ true)
    × (find (λ r. r.id == 7) new ≡ none)
unfolding requests_code
get_request-list_requests_example = get_request-list_requests (answer asked refusal) (panel ∷ []) 7
