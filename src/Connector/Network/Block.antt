-- ===== src/Connector/Network/Block.antt =====
-- A range contains the block of addresses that its own address lies in
-- (crates/connector/src/network.rs).
use remotehub.Base.{
  ℕ, zero, suc, ◌+◌, ◌-◌, ◌*◌, ◌/◌, ◌^◌, ◌≤◌, ◌<◌, Bool, true, false, if◌then◌else◌, ltb, leb, ◌=?◌,
  arith, ◌≡◌, refl, ◌↔◌, Bool-cases, inl, inr,
}
use remotehub.Connector.Inventory.Defs.{IpAddr, v4, v6, Network}
use remotehub.Connector.Network.{to_canonical, masked, contains_canonical, contains_ip}

block_of_multiple :
    (a b m : ℕ)
    → 0 < m
    → a / m * m ≡ b / m * m
    → (a / m * m ≤ a) × (a < a / m * m + m) × (a / m * m ≤ b) × (b < a / m * m + m)
block_of_multiple a b m h e = (grind arith, grind arith, grind arith, grind arith)

quotient_of_block : (q b m : ℕ) → 0 < m → q * m ≤ b → b < q * m + m → b / m ≡ q
quotient_of_block q b m h l u = grind arith

power_positive : (k : ℕ) → 0 < 2 ^ k
power_positive zero = omega arith
power_positive (suc k) = grind (arith, power_positive k)

-- Two numbers are in one block of a size: between two multiples of it that follow each other.
abbrev pub InBlock : ℕ → ℕ → ℕ → Type 0
InBlock size a b =
    (q : ℕ) × (q * size ≤ a) × (a < q * size + size) × (q * size ≤ b) × (b < q * size + size)

masked_iff :
    (bits prefix a b : ℕ)
    → prefix ≤ bits
    → a < 2 ^ bits
    → b < 2 ^ bits
    → (masked bits prefix a ≡ masked bits prefix b) ↔ InBlock (2 ^ (bits - prefix)) a b
unfolding masked
masked_iff bits prefix a b p x y = elim (Bool-cases (ltb (bits - prefix) bits)) [
  | inl shifts ↦
      rw (shifts, if◌then◌else◌)
        (
          λ e.
              let (la, ua, lb, ub) =
                block_of_multiple a b (2 ^ (bits - prefix)) (power_positive (bits - prefix)) e in
              (a / 2 ^ (bits - prefix), la, ua, lb, ub),
          λ (q, la, ua, lb, ub).
              rw
                (
                  quotient_of_block q a (2 ^ (bits - prefix)) (power_positive (bits - prefix)) la
                      ua,
                  quotient_of_block q b (2 ^ (bits - prefix)) (power_positive (bits - prefix)) lb
                      ub,
                )
                refl,
        )
  | inr whole ↦
      let all : bits - prefix ≡ bits = ground (arith, whole, p) in
      rw (whole, if◌then◌else◌, all)
        (λ e. (0, omega arith, omega (arith, x), omega arith, omega (arith, y)), λ block. refl)
]

-- An address has the bits of its version, and a range a prefix of as many at most.
abbrev pub is_address : IpAddr → Bool
is_address (v4 n) = ltb n (2 ^ 32)
is_address (v6 n) = ltb n (2 ^ 128)

abbrev pub is_prefix : ℕ → IpAddr → Bool
is_prefix prefix (v4 n) = leb prefix 32
is_prefix prefix (v6 n) = leb prefix 128

-- Two addresses of one version that are in one block of the prefix.
abbrev pub Within : ℕ → IpAddr → IpAddr → Type 0
Within prefix (v4 net) (v4 ip) = InBlock (2 ^ (32 - prefix)) net ip
Within prefix (v6 net) (v6 ip) = InBlock (2 ^ (128 - prefix)) net ip
Within prefix (v4 net) (v6 ip) = false ≡ true
Within prefix (v6 net) (v4 ip) = false ≡ true

test_iff : (a b : ℕ) {P : Type 0} → (a ≡ b) ↔ P → ((a =? b) ≡ true) ↔ P
test_iff a b (to, from) = (λ e. to (ground (arith, e)), λ p. let e = from p in ground (arith, e))

canonical_iff :
    (prefix : ℕ) (net ip : IpAddr)
    → is_prefix prefix net ≡ true
    → is_address net ≡ true
    → is_address ip ≡ true
    → (contains_canonical prefix net ip ≡ true) ↔ Within prefix net ip
canonical_iff prefix (v4 a) (v4 b) p x y =
    test_iff (masked 32 prefix a) (masked 32 prefix b)
      (masked_iff 32 prefix a b (ground (arith, p)) (ground (arith, x)) (ground (arith, y)))
canonical_iff prefix (v6 a) (v6 b) p x y =
    test_iff (masked 128 prefix a) (masked 128 prefix b)
      (masked_iff 128 prefix a b (ground (arith, p)) (ground (arith, x)) (ground (arith, y)))
canonical_iff prefix (v4 a) (v6 b) p x y = (λ e. e, λ e. e)
canonical_iff prefix (v6 a) (v4 b) p x y = (λ e. e, λ e. e)

to_canonical-address : (ip : IpAddr) → is_address ip ≡ true → is_address (to_canonical ip) ≡ true
to_canonical-address (v4 n) h = h
to_canonical-address (v6 n) h = elim (Bool-cases (n / 4_294_967_296 =? 65_535)) [
  | inl y ↦ rw (y, if◌then◌else◌) (ground arith)
  | inr m ↦ rw (m, if◌then◌else◌) h
]

-- A range contains an address exactly if the address, an IPv4 address in IPv6 taken for itself, is of
-- the range's version and in the same block of the range's size as the range's own address.
pub contains_ip_iff :
    (net : Network) (ip : IpAddr)
    → is_prefix net.prefix net.address ≡ true
    → is_address net.address ≡ true
    → is_address ip ≡ true
    → (contains_ip net ip ≡ true) ↔ Within net.prefix net.address (to_canonical ip)
unfolding contains_ip
contains_ip_iff net ip p x y =
    canonical_iff net.prefix net.address (to_canonical ip) p x (to_canonical-address ip y)
