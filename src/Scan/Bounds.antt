-- ===== src/Scan/Bounds.antt =====
-- What a resolved range satisfies.
use zts_airdrop.Base.{ℕ, ◌+◌, ◌≤◌, ◌<◌, ◌≡◌, ok, arith, ◌⊎◌}
use zts_airdrop.Scan.{Range, range_start, range_end, range_at}

-- the range that was asked for, by its start or by its number of momentums
abbrev pub IsAsked : ℕ → ℕ → Range → Type 0
IsAsked from_height last_n r =
    ((0 < from_height) × (r.from ≡ from_height))
    ⊎ ((from_height ≡ 0) × (last_n < r.to) × (r.to + 1 ≡ r.from + last_n))
    ⊎ ((from_height ≡ 0) × (r.to ≤ last_n) × (r.from ≡ 1))

-- A range that ResolveRange accepts lies between height 1 and the tip and is not empty; it
-- ends at the asked height or at the tip, and starts at the asked height, or covers exactly
-- the asked number of momentums back from its end, or starts at 1 if its end is not above that
-- number.
pub range_at_sound :
    (tip from_height last_n to_height : ℕ) {r : Range}
    → range_at tip from_height last_n to_height ≡ ok r
    → (1 ≤ r.from)
      × (r.from ≤ r.to)
      × (r.to ≤ tip)
      × ((to_height ≡ 0 → r.to ≡ tip) × (0 < to_height → r.to ≡ to_height))
      × IsAsked from_height last_n r
unfolding range_at range_start range_end
range_at_sound tip from_height last_n to_height {r} e = ground arith
