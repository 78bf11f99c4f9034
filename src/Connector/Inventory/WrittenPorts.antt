-- ===== src/Connector/Inventory/WrittenPorts.antt =====
-- Ports are read back as they were written (crates/connector/src/inventory.rs), and what is read is a
-- range of ports.
use mathlib.Core.List.{reverse, reverse-cons, reverse-reverse}
use remotehub.Base.{
  ℕ, ◌≤◌, Bool, true, false, ◌&&◌, none, some, List, [], ◌∷◌, ◌++◌, if◌then◌else◌, leb, ◌=?◌, all,
  is_empty, arith, ◌≡◌, refl, ap, ◌∙◌, Bool-cases, Option-cases, inl, inr,
}
use remotehub.Base.Text.{
  Text, is_digit, is_whitespace, trim, trim_start_by, trim_end_by, split_once, split_once-append,
}
use remotehub.Base.Decimal.{show, parse_uint, show-all, parse_uint-show, parse_uint-most}
use remotehub.Connector.Inventory.Defs.{Ports, Result, ok, err}
use remotehub.Connector.Inventory.Written.{
  read_port, in_order, read_both, read_ports, some_ports, write_ports, collect_ports, list_parts,
  parse_list,
}

-- From 1 to 65535, the first no later than the last.
abbrev pub is_range : Ports → Bool
is_range p = leb 1 p.first && (leb p.first p.last && leb p.last 65_535)

split_once-digits : (s : Text) → all is_digit s ≡ true → split_once b'-' s ≡ none
unfolding split_once
split_once-digits [] h = refl
split_once-digits (c ∷ s) h = ground (arith, split_once-digits s)

trim_start-digits : (s : Text) → all is_digit s ≡ true → trim_start_by is_whitespace s ≡ s
trim_start-digits [] h = refl
trim_start-digits (c ∷ s) h = ground arith

all-append {ℓ} :
    {A : Type ℓ} (p : A → Bool) (xs ys : List A) → all p (xs ++ ys) ≡ (all p xs && all p ys)
all-append p [] ys = refl
all-append p (x ∷ xs) ys = ground (arith, all-append p xs ys)

read_in_order :
    (whole : Text) (first last : ℕ)
    → 1 ≤ first
    → last ≤ 65_535
    → (p : Ports) → in_order whole first last ≡ ok p
    → is_range p ≡ true
read_in_order whole first last h l p e = ground arith

read_port-range : (whole part : Text) (n : ℕ) → read_port whole part ≡ ok n → (1 ≤ n) × (n ≤ 65_535)
read_port-range whole part n e = elim (Option-cases (parse_uint 65_535 (trim part))) [
  | inl m ↦ ground arith
  | inr (k, m) ↦ ground (arith, parse_uint-most 65_535 (trim part) k)
]

read_both-range :
    (whole a b : Text) (p : Ports)
    → read_both whole (read_port whole a) (read_port whole b) ≡ ok p
    → is_range p ≡ true
read_both-range whole a b p e =
    ground (arith, read_port-range whole a p.first, read_port-range whole b p.last)

read_ports-range : (s : Text) (p : Ports) → read_ports s ≡ ok p → is_range p ≡ true
unfolding read_ports
read_ports-range s p e = elim (Option-cases (split_once b'-' s)) [
  | inl m ↦ read_both-range s s s p (rw (read_ports, m) at e)
  | inr ((a, b), m) ↦ read_both-range s a b p (rw (read_ports, m) at e)
]

collect_ports-range :
    (parts : List Text) (ps : List Ports) → collect_ports parts ≡ ok ps → all is_range ps ≡ true
unfolding collect_ports
collect_ports-range [] ps e = ground arith
collect_ports-range (part ∷ parts) [] e = ground arith
collect_ports-range (part ∷ parts) (p ∷ ps) e =
    ground (arith, read_ports-range part p, collect_ports-range parts ps)

some_ports-ok :
    (r : Result (List Ports)) (ps : List Ports)
    → some_ports r ≡ ok ps
    → (is_empty ps ≡ false) × (r ≡ ok ps)
some_ports-ok (ok []) ps e = ground arith
some_ports-ok (ok (p ∷ qs)) [] e = ground arith
some_ports-ok (ok (p ∷ qs)) (q ∷ ps) e = ground arith
some_ports-ok (err x) ps e = ground arith

-- A list of ports that is read has at least one entry, and each is a range from 1 to 65535 whose first
-- port is not after its last.
pub parse_list-range :
    (s : Text) (ps : List Ports)
    → parse_list s ≡ ok ps
    → (is_empty ps ≡ false) × (all is_range ps ≡ true)
unfolding parse_list
parse_list-range s ps e =
    let (filled, read) = some_ports-ok _ ps e in
    (filled, collect_ports-range (list_parts s) ps read)

trim_end-digits : (s : Text) → all is_digit s ≡ true → trim_end_by is_whitespace s ≡ s
trim_end-digits s h =
    ap reverse (trim_start-digits (reverse s) (all-reverse s h)) ∙ reverse-reverse s
  where
    all-reverse : (s : Text) → all is_digit s ≡ true → all is_digit (reverse s) ≡ true
    all-reverse [] h = refl
    all-reverse (c ∷ s) h = rw (reverse-cons, all-append) (ground (arith, all-reverse s))

trim-digits : (s : Text) → all is_digit s ≡ true → trim s ≡ s
unfolding trim
trim-digits s h = rw (trim_start-digits s h) (trim_end-digits s h)

read_port-some :
    (whole part : Text) (n : ℕ)
    → 1 ≤ n
    → parse_uint 65_535 (trim part) ≡ some n
    → read_port whole part ≡ ok n
read_port-some whole part n l e = ground arith

read_port-show : (whole : Text) (n : ℕ) → 1 ≤ n → n ≤ 65_535 → read_port whole (show n) ≡ ok n
read_port-show whole n l h =
    read_port-some whole (show n) n l
      (ap (parse_uint 65_535) (trim-digits (show n) (show-all n)) ∙ parse_uint-show 65_535 n h)

read_ports-none :
    (s : Text)
    → split_once b'-' s ≡ none
    → read_ports s ≡ read_both s (read_port s s) (read_port s s)
unfolding read_ports
read_ports-none s e = rw (read_ports, e) refl

read_ports-some :
    (s a b : Text)
    → split_once b'-' s ≡ some (a, b)
    → read_ports s ≡ read_both s (read_port s a) (read_port s b)
unfolding read_ports
read_ports-some s a b e = rw (read_ports, e) refl

read_both-ok :
    (whole : Text) (a b : Result ℕ) (p : Ports)
    → is_range p ≡ true
    → a ≡ ok p.first
    → b ≡ ok p.last
    → read_both whole a b ≡ ok p
read_both-ok whole a b p h ea eb = ground arith

-- Ports are read back as they were written, if they are a range from 1 to 65535.
pub read_ports-write_ports : (p : Ports) → is_range p ≡ true → read_ports (write_ports p) ≡ ok p
unfolding write_ports
read_ports-write_ports p h =
    let one = show p.first in
    let both = show p.first ++ b'-' ∷ show p.last in
    elim (Bool-cases (p.first =? p.last)) [
      | inl y ↦
          rw (y, if◌then◌else◌)
            (read_ports-none one (split_once-digits one (show-all p.first))
              ∙ read_both-ok one _ _ p h (read_port-show one p.first (ground arith) (ground arith))
                  (read_port-show one p.first (ground arith) (ground arith) ∙ ap ok (ground arith)))
      | inr n ↦
          rw (n, if◌then◌else◌)
            (read_ports-some both (show p.first) (show p.last) (
                split_once-append b'-' (show p.first) (show p.last)
                  (split_once-digits (show p.first) (show-all p.first)))
              ∙ read_both-ok both _ _ p h
                  (read_port-show both p.first (ground arith) (ground arith))
                  (read_port-show both p.last (ground arith) (ground arith)))
    ]
