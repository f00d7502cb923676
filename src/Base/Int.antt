-- ===== src/Base/Int.antt =====
-- Arithmetic of `math/big` integers, as far as the program does it.
use Prim.Native.Nat.{ℕ, suc, ◌+◌, ◌-◌, ◌*◌}
use mathlib.Core.Bool.{Bool}
use mathlib.Core.Path.{◌≡◌}
use native.Mathlib.Omega.{arith}
use zts_airdrop.Base.Results.{ℤ, pos, negsuc}
use zts_airdrop.Base.Tests.{leb, ltb, if◌then◌else◌}

abbrev pub pos_part : ℤ → ℕ
pos_part (pos n) = n
pos_part (negsuc n) = 0

abbrev pub neg_part : ℤ → ℕ
neg_part (pos n) = 0
neg_part (negsuc n) = suc n

-- a - b, as an integer
abbrev pub sub_ℕ : ℕ → ℕ → ℤ
sub_ℕ a b = if leb b a then pos (a - b) else negsuc (b - a - 1)

infixl 65 ◌+ℤ◌ ◌-ℤ◌
-- `Add`
unfoldable pub ◌+ℤ◌ : ℤ → ℤ → ℤ
a +ℤ b = sub_ℕ (pos_part a + pos_part b) (neg_part a + neg_part b)

-- `Sub`
unfoldable pub ◌-ℤ◌ : ℤ → ℤ → ℤ
a -ℤ b = sub_ℕ (pos_part a + neg_part b) (neg_part a + pos_part b)

-- `Mul` by a count
unfoldable pub times : ℤ → ℕ → ℤ
times v n = sub_ℕ (pos_part v * n) (neg_part v * n)

-- `Cmp(b) < 0`
abbrev pub lt_int : ℤ → ℤ → Bool
lt_int a b = ltb (pos_part a + neg_part b) (pos_part b + neg_part a)

pub times-zero : (v : ℤ) → times v 0 ≡ pos 0
unfolding times
times-zero v = ground arith

times_step :
    (p q n : ℕ)
    → sub_ℕ (p * suc n) (q * suc n)
      ≡ sub_ℕ (pos_part (sub_ℕ (p * n) (q * n)) + p) (neg_part (sub_ℕ (p * n) (q * n)) + q)
times_step p q n = ground arith

-- one payment more
pub times-suc : (v : ℤ) (n : ℕ) → times v (suc n) ≡ times v n +ℤ v
unfolding times ◌+ℤ◌
times-suc v n = times_step (pos_part v) (neg_part v) n
