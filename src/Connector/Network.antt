-- ===== src/Connector/Network.antt =====
-- crates/connector/src/network.rs: whether a range contains an address. An address is its number, of
-- 32 bits or of 128.
pub mod Block
mod Tests
use remotehub.Base.{ℕ, ◌-◌, ◌*◌, ◌/◌, ◌%◌, ◌^◌, Bool, false, if◌then◌else◌, ltb, ◌=?◌}
use remotehub.Connector.Inventory.Defs.{IpAddr, v4, v6, Network}

-- `IpAddr::to_canonical`: an IPv4 address that is mapped into IPv6, `::ffff:0:0/96`, is taken for itself.
abbrev pub to_canonical : IpAddr → IpAddr
to_canonical (v4 n) = v4 n
to_canonical (v6 n) = if n / 4_294_967_296 =? 65_535 then v4 (n % 4_294_967_296) else v6 n

-- `x & MAX.checked_shl(bits - prefix).unwrap_or(0)`: the bits of the number from `bits - prefix` on, or
-- none where the shift is as wide as the number.
unfoldable pub masked : ℕ → ℕ → ℕ → ℕ
masked bits prefix x =
    if ltb (bits - prefix) bits then x / 2 ^ (bits - prefix) * 2 ^ (bits - prefix) else 0

abbrev pub contains_canonical : ℕ → IpAddr → IpAddr → Bool
contains_canonical prefix (v4 net) (v4 ip) = masked 32 prefix net =? masked 32 prefix ip
contains_canonical prefix (v6 net) (v6 ip) = masked 128 prefix net =? masked 128 prefix ip
contains_canonical prefix (v4 net) (v6 ip) = false
contains_canonical prefix (v6 net) (v4 ip) = false

unfoldable pub contains_ip : Network → IpAddr → Bool
unfolding masked
contains_ip net ip = contains_canonical net.prefix net.address (to_canonical ip)
