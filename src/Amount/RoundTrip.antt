-- ===== src/Amount/RoundTrip.antt =====
-- `FormatAmount` prints what `ParseAmount` reads.
use native.Mathlib.Nat.{add-zero, mod-lt}
use zts_airdrop.Amount.{parse_amount, padded, format_parts, format_amount}
use zts_airdrop.Amount.Complete.{fit_places_complete}
use zts_airdrop.Amount.Places.{value-padded}
use zts_airdrop.Amount.Written.{parse_amount_iff, parse_amount_whole}
use zts_airdrop.Base.{
  ℕ, zero, suc, ◌+◌, ◌-◌, ◌*◌, ◌/◌, ◌%◌, ◌^◌, ◌<◌, ◌≡◌, ap, ◌∙◌, sym, true, false, [], ◌++◌, some,
  Bytes, pos, ok, ◌==◌, arith, All-append, All-append_left, All-replicate, length, replicate,
  length-append, length-replicate, append-nil, Bool-cases, inl, inr, ==_iff,
}
use zts_airdrop.Decimal.{value, decimal, decimal_int, is_digit}
use zts_airdrop.Decimal.Laws.{
  AllDigits, digit-is_digit, decimal-AllDigits, decimal-ne-nil, decimal-length, value-decimal,
  value_from-append, value_from_shift, value_from-replicate, pow-add, pow-pos,
}
use zts_airdrop.Text.{trim_right}
use zts_airdrop.Text.Laws.{trim_right-append}

scale_pos : (n p : ℕ) → 0 < n → 0 < p → 0 < n * p
scale_pos n p h k = grind arith

-- A whole number of units is read as so many times the token's unit.
pub parse_amount-decimal : (n d : ℕ) → 0 < n → parse_amount (decimal n) d ≡ ok (pos (n * 10 ^ d))
parse_amount-decimal n d h =
    rw (parse_amount_whole (decimal n) d (decimal-ne-nil n) (decimal-AllDigits n)) (
      fit_places_complete _ (decimal n) [] d (n * 10 ^ d) (decimal-ne-nil n)
        (scale_pos n (10 ^ d) h (pow-pos d)) (decimal-AllDigits n) tt
        (rw (append-nil, value-decimal n) (omega arith)))

padded-length : (d r : ℕ) → r < 10 ^ suc d → length (padded (suc d) r) ≡ suc d
unfolding padded
padded-length d r h = omega (
  arith,
  length-append {0} (replicate (suc d - length (decimal r)) b'0') (decimal r),
  length-replicate {0} {A = ℕ} (suc d - length (decimal r)) b'0',
  decimal-length r d h,
)

padded-AllDigits : (d r : ℕ) → AllDigits (padded d r)
unfolding padded
padded-AllDigits d r =
    let zero_digits =
      All-replicate (λ c. is_digit c ≡ true) (d - length (decimal r)) b'0'
        (digit-is_digit 0 (omega arith)) in
    All-append _ _ (decimal r) zero_digits (decimal-AllDigits r)

zero_times : (p : ℕ) → 0 * p ≡ 0
zero_times p = omega arith

padded-value : (d r : ℕ) → value (padded d r) ≡ r
unfolding padded
padded-value d r =
    rw
      (
        value_from-append 0 (replicate (d - length (decimal r)) b'0') (decimal r),
        value_from-replicate 0 (d - length (decimal r)),
        zero_times (10 ^ (d - length (decimal r))),
      )
      (value-decimal r)

-- `q` units and the padded `r` smallest units spell `q * 10 ^ d + r`
units_value :
    (q r d : ℕ) → r < 10 ^ suc d → value (decimal q ++ padded (suc d) r) ≡ q * 10 ^ suc d + r
units_value q r d h = rw (
  value_from-append 0 (decimal q) (padded (suc d) r),
  value-decimal q,
  value_from_shift q (padded (suc d) r),
  padded-length d r h,
  padded-value (suc d) r,
)

-- the fraction with its last zeros trimmed
abbrev trimmed : ℕ → ℕ → Bytes
trimmed d r = trim_right (λ c. c == b'0') (padded d r)

trimmed-AllDigits : (d r : ℕ) → AllDigits (trimmed d r)
trimmed-AllDigits d r =
    let (short, e) = trim_right-append b'0' (padded d r) in
    let whole : AllDigits
        (trimmed d r ++ replicate (length (padded d r) - length (trimmed d r)) b'0') =
      rw e (padded-AllDigits d r) in
    All-append_left _ (trimmed d r) _ whole

-- what the trim leaves still says the whole value
exact_of : (n v p a b : ℕ) → n ≡ v * b → p ≡ a * b → n * a ≡ v * p
exact_of n v p a b e q = rw (e, q) (omega arith)

trimmed_exact :
    (q r d : ℕ)
    → r < 10 ^ suc d
    → (q * 10 ^ suc d + r) * 10 ^ length (trimmed (suc d) r)
      ≡ value (decimal q ++ trimmed (suc d) r) * 10 ^ suc d
trimmed_exact q r d h =
    let t = trimmed (suc d) r in
    let k : ℕ = length (padded (suc d) r) - length t in
    let (short, e) = trim_right-append b'0' (padded (suc d) r) in
    let places : suc d ≡ length t + k = omega (arith, padded-length d r h, short) in
    let scaled : q * 10 ^ suc d + r ≡ value (decimal q ++ t) * 10 ^ k =
      sym (units_value q r d h)
      ∙ ap (λ u. value (decimal q ++ u)) (sym e)
      ∙ value-padded (decimal q) t k in
    exact_of _ _ _ (10 ^ length t) (10 ^ k) scaled (ap (λ j. 10 ^ j) places ∙ pow-add (length t) k)

units_left : (q p : ℕ) → 0 < q * p → 0 < q
units_left zero p h = omega (arith, zero_times p)
units_left (suc q) p h = omega arith

format_parts_read :
    (q r d : ℕ)
    → r < 10 ^ suc d
    → 0 < q * 10 ^ suc d + r
    → parse_amount (format_parts [] q r (suc d)) (suc d) ≡ ok (pos (q * 10 ^ suc d + r))
unfolding format_parts
format_parts_read q r d h positive = elim (Bool-cases (r == 0)) [
  | inl none_left ↦
      let e : r ≡ 0 = (==_iff r 0).0 none_left in
      let whole : 0 < q = units_left q (10 ^ suc d) (omega (arith, e, positive)) in
      rw (none_left, e, add-zero) (parse_amount-decimal q (suc d) whole)
  | inr some_left ↦ rw some_left (
      (parse_amount_iff (decimal q) (trimmed (suc d) r) (suc d) (q * 10 ^ suc d + r)
          (decimal-AllDigits q) (trimmed-AllDigits (suc d) r)).1
        (record {
          positive = positive;
          whole_digits = decimal-AllDigits q;
          frac_digits = trimmed-AllDigits (suc d) r;
          exact = trimmed_exact q r d h;
        }))
]

div-mod : (n p : ℕ) → n / p * p + n % p ≡ n
div-mod n p = omega arith

mul_one : (n : ℕ) → n * 1 ≡ n
mul_one n = omega arith

format_amount_units :
    (n d : ℕ)
    → format_amount (some (pos n)) (suc d)
      ≡ format_parts [] (n / 10 ^ suc d) (n % 10 ^ suc d) (suc d)
unfolding format_amount
format_amount_units n d = let e : (suc d == 0) ≡ false = ground arith in rw e

-- Reading back what FormatAmount prints for a positive amount gives the same number of
-- smallest units, for every number of decimals.
pub parse_amount-format_amount :
    (n d : ℕ) → 0 < n → parse_amount (format_amount (some (pos n)) d) d ≡ ok (pos n)
unfolding format_amount decimal_int
parse_amount-format_amount n zero h = rw (parse_amount-decimal n zero h, mul_one n)
parse_amount-format_amount n (suc d) h =
    let whole : n / 10 ^ suc d * 10 ^ suc d + n % 10 ^ suc d ≡ n = div-mod n (10 ^ suc d) in
    let read =
      format_parts_read (n / 10 ^ suc d) (n % 10 ^ suc d) d (mod-lt n (pow-pos (suc d)))
        (rw whole h) in
    rw (format_amount_units n d) (read ∙ ap (λ m. ok (pos m)) whole)
