-- ===== src/Connector/Network/Tests.antt =====
-- Ranges of addresses, and what they contain.
use remotehub.Base.{true, false, ◌≡◌, refl, ◌↔◌}
use remotehub.Connector.Inventory.Defs.{Network, v4, v6}
use remotehub.Connector.Network.{masked, contains_ip, to_canonical}
use remotehub.Connector.Network.Block.{Within, contains_ip_iff}

-- 10.1.0.0/16
abbrev site : Network
site = record { address = v4 0x0a01_0000; prefix = 16 }

-- 10.1.255.255, 10.2.0.0, ::ffff:10.1.0.1 and ::1
contains_ip_tests :
    (contains_ip site (v4 0x0a01_ffff) ≡ true)
    × (contains_ip site (v4 0x0a02_0000) ≡ false)
    × (contains_ip site (v6 0xffff_0a01_0001) ≡ true)
    × (contains_ip site (v6 1) ≡ false)
    × (contains_ip (record site { prefix = 0 }) (v4 0x0a02_0000) ≡ true)
unfolding contains_ip masked
contains_ip_tests = (refl, refl, refl, refl, refl)

contains_ip_iff_example :
    (contains_ip site (v6 0xffff_0a01_0001) ≡ true)
    ↔ Within 16 (v4 0x0a01_0000) (to_canonical (v6 0xffff_0a01_0001))
contains_ip_iff_example = contains_ip_iff site (v6 0xffff_0a01_0001) refl refl refl
