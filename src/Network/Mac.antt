-- ===== src/Network/Mac.antt =====
-- `RandomMAC` of internal/network/ipam.go.
use Prim.Native.Nat.{bit_and, bit_or}
use capper.Prelude.{
  ℕ, ◌/◌, ◌%◌, ◌<◌, true, ◌&&◌, List, [], ◌∷◌, Option, none, some, ◌==◌, ◌≡◌, refl, arith,
}
use capper.Prelude.Below.{passes_below, passes_below-lt}

-- The first byte with the bit for a local address set and the bit for a group cleared.
pub local_unicast : ℕ → ℕ
local_unicast b = bit_and (bit_or b 0x02) 0xfe

-- Six random bytes; `none` is an error of the source.
unfoldable pub random_mac : Option (List ℕ) → Option (List ℕ)
unfolding local_unicast
random_mac none = none
random_mac (some []) = some []
random_mac (some (b ∷ bs)) = some (local_unicast b ∷ bs)

local_unicast_table :
    passes_below (λ b. (local_unicast b % 2 == 0) && (local_unicast b / 2 % 2 == 1)) 256 ≡ true
unfolding passes_below local_unicast
local_unicast_table = refl

-- Whatever the random bytes, the address is a unicast one and locally administered.
random_mac_bits :
    (b : ℕ) (bs mac : List ℕ)
    → b < 256
    → random_mac (some (b ∷ bs)) ≡ some mac
    → (c : ℕ) × (mac ≡ c ∷ bs) × (c % 2 ≡ 0) × (c / 2 % 2 ≡ 1)
unfolding random_mac
random_mac_bits b bs mac h e =
    let t = passes_below-lt _ 256 b h local_unicast_table in
    (local_unicast b, ground arith, ground (arith, t), ground (arith, t))
