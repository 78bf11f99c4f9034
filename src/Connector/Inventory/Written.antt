-- ===== src/Connector/Inventory/Written.antt =====
-- Ports as they are written and read in crates/connector/src/inventory.rs.
use remotehub.Base.{
  ℕ, ◌||◌, not, none, some, List, [], ◌∷◌, ◌++◌, map, if◌then◌else◌, ltb, ◌=?◌, filter, is_empty,
}
use remotehub.Base.Text.{Text, text, trim, split_by, split_once, text_eq}
use remotehub.Base.Decimal.{show, parse_uint}
use remotehub.Connector.Inventory.Defs.{Ports, Result, ok, err, invalid_ports, no_ports}

-- The closure `port` of `Ports::from_str`: a `u16` that is not 0, between white space.
abbrev pub read_port : Text → Text → Result ℕ
read_port whole part = elim (parse_uint 65_535 (trim part)) [
  | none ↦ err (invalid_ports whole)
  | some p ↦ if ltb 0 p then ok p else err (invalid_ports whole)
]

abbrev pub in_order : Text → ℕ → ℕ → Result Ports
in_order whole first last =
    if ltb last first then err (invalid_ports whole) else ok (record { first = first; last = last })

-- `?` on the first port, then on the last.
abbrev pub read_last : Text → ℕ → Result ℕ → Result Ports
read_last whole first (ok last) = in_order whole first last
read_last whole first (err e) = err e

abbrev pub read_both : Text → Result ℕ → Result ℕ → Result Ports
read_both whole (ok first) last = read_last whole first last
read_both whole (err e) last = err e

unfoldable pub read_ports : Text → Result Ports
unfolding split_once trim parse_uint
read_ports s = elim (split_once b'-' s) [
  | none ↦ read_both s (read_port s s) (read_port s s)
  | some (first, last) ↦ read_both s (read_port s first) (read_port s last)
]

-- `Display for Ports`
unfoldable pub write_ports : Ports → Text
unfolding show
write_ports p = if p.first =? p.last then show p.first else show p.first ++ b'-' ∷ show p.last

abbrev pub join : Text → List Text → Text
join sep [] = []
join sep (s ∷ []) = s
join sep (s ∷ (t ∷ rest)) = s ++ (sep ++ join sep (t ∷ rest))

unfoldable pub ports_text : List Ports → Text
unfolding write_ports
ports_text ports = join (text ", ") (map write_ports ports)

-- `collect` into a `Result`: the first error, or all.
abbrev pub onto : Result Ports → Result (List Ports) → Result (List Ports)
onto (err e) rest = err e
onto (ok p) (err e) = err e
onto (ok p) (ok ps) = ok (p ∷ ps)

unfoldable pub collect_ports : List Text → Result (List Ports)
unfolding read_ports
collect_ports [] = ok []
collect_ports (part ∷ parts) = let rest = collect_ports parts in onto (read_ports part) rest

abbrev pub some_ports : Result (List Ports) → Result (List Ports)
some_ports (ok []) = err no_ports
some_ports (ok (p ∷ ps)) = ok (p ∷ ps)
some_ports (err e) = err e

-- The parts of a list, without the empty ones.
abbrev pub list_parts : Text → List Text
list_parts s = filter (λ part. not (is_empty part)) (split_by (λ c. (c =? b',') || (c =? 32)) s)

-- `Ports::parse_list`
unfoldable pub parse_list : Text → Result (List Ports)
unfolding collect_ports split_by
parse_list s = some_ports (collect_ports (list_parts s))
