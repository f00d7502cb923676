-- ===== src/Amount.antt =====
-- amount.go: a written amount to the smallest unit of a token, and back.
mod Places
pub mod Exact
pub mod Complete
pub mod Written
pub mod RoundTrip
use zts_airdrop.Base.{
  ℕ, zero, suc, ◌+◌, ◌-◌, ◌*◌, ◌/◌, ◌%◌, ◌^◌, Bool, true, false, not, ◌&&◌, [], ◌∷◌, ◌++◌, Option,
  none, some, Bytes, ℤ, pos, abs, is_negative, Result, ok, err, errorf, ltb, ◌==◌, if◌then◌else◌,
  is_empty, length, take, drop, replicate,
}
use zts_airdrop.Decimal.{decimal, decimal_int, set_string}
use zts_airdrop.Text.{trim_space, trim_byte, trim_right, remove, has_prefix, cut}

-- `strings.ReplaceAll(strings.TrimSpace(s), "_", "")`
unfoldable pub clean : Bytes → Bytes
clean s = remove b'_' (trim_space s)

-- what `SetString` made of the digits, and the test for zero
pub check_value : Bytes → Option ℤ → Result ℤ
check_value s none = err (errorf "amount %q is not a number" (s ∷ []))
check_value s (some v) =
    if abs v == 0 then err (errorf "amount %q rounds to zero" (s ∷ [])) else ok v

-- the fraction is padded with zeros to the token's places
unfoldable pub scale_digits : Bytes → Bytes → Bytes → ℕ → Result ℤ
unfolding check_value
scale_digits s whole frac decimals =
    check_value s (set_string (whole ++ (frac ++ replicate (decimals - length frac) b'0')))

-- places beyond the token's are dropped only if they are zeros
unfoldable pub fit_places : Bytes → Bytes → Bytes → ℕ → Result ℤ
fit_places s whole frac decimals =
    if ltb decimals (length frac)
    then if is_empty (trim_byte b'0' (drop decimals frac))
      then scale_digits s whole (take decimals frac) decimals
      else err (
          errorf "amount %q has %d decimal places but the token has %d"
            (s ∷ decimal (length frac) ∷ decimal decimals ∷ []))
    else scale_digits s whole frac decimals

-- an empty side of the point is a zero; with no point the fraction is empty
unfoldable pub whole_part : Bytes → Bytes
whole_part before = if is_empty before then b'0' ∷ [] else before

unfoldable pub frac_part : Bool → Bytes → Bytes
frac_part found after = if found && is_empty after then b'0' ∷ [] else after

-- `ParseAmount`, behind the cleaning of its text
unfoldable pub parse_clean : Bytes → ℕ → Result ℤ
unfolding whole_part frac_part
parse_clean s decimals =
    let parts = cut b'.' s in
    if is_empty s
    then err (errorf "empty amount" [])
    else if has_prefix (b'-' ∷ []) s
    then err (errorf "amount %q is negative" (s ∷ []))
    else fit_places s (whole_part parts.before) (frac_part parts.found parts.after) decimals

-- `ParseAmount`
unfoldable pub parse_amount : Bytes → ℕ → Result ℤ
parse_amount s decimals = parse_clean (clean s) decimals

abbrev pub sign : ℤ → Bytes
sign v = if is_negative v then b'-' ∷ [] else []

-- the fraction of `FormatAmount`, padded by hand on the left
unfoldable pub padded : ℕ → ℕ → Bytes
padded decimals frac = replicate (decimals - length (decimal frac)) b'0' ++ decimal frac

-- the text of a value of `whole` units and `frac` smallest units
unfoldable pub format_parts : Bytes → ℕ → ℕ → ℕ → Bytes
unfolding padded
format_parts minus whole frac decimals =
    if frac == 0
    then minus ++ decimal whole
    else minus ++ (decimal whole ++ (b'.' ∷ trim_right (λ c. c == b'0') (padded decimals frac)))

-- `FormatAmount`; `none` is a nil `*big.Int`
unfoldable pub format_amount : Option ℤ → ℕ → Bytes
format_amount none decimals = b'0' ∷ []
format_amount (some v) decimals =
    if decimals == 0
    then decimal_int v
    else format_parts (sign v) (abs v / 10 ^ decimals) (abs v % 10 ^ decimals) decimals
