-- ===== src/Amount/Written.antt =====
-- Decimals as a person writes them: which are accepted, and with what value.
use zts_airdrop.Amount.{clean, fit_places, whole_part, frac_part, parse_clean, parse_amount}
use zts_airdrop.Amount.Complete.{fit_places_complete}
use zts_airdrop.Amount.Exact.{IsValueOf, parse_amount_exact}
use zts_airdrop.Base.{
  ℕ, ◌+◌, ◌-◌, ◌*◌, ◌^◌, ◌≡◌, ◌≢◌, ◌↔◌, refl, true, false, [], ◌∷◌, ◌++◌, Bytes, pos, ok, arith,
  All, All-append, All-map, length, append-nil,
}
use zts_airdrop.Decimal.{value, value_from, unsigned, is_digit}
use zts_airdrop.Decimal.Laws.{AllDigits, is_digit_bounds, digit-is_digit, value_from-append}
use zts_airdrop.Text.{is_space, cut, has_prefix}
use zts_airdrop.Text.Laws.{remove_lacking, trim_space_of_fail, cut_at, cut_lacking, Lacks}

-- neither white space nor an underscore
abbrev IsPlain : ℕ → Type 0
IsPlain c = (c ≢ b'_') × (is_space c ≡ false)

clean_plain : (s : Bytes) → All IsPlain s → clean s ≡ s
unfolding clean
clean_plain s h =
    rw (trim_space_of_fail s (All-map _ _ s (λ c p. p.1) h))
      (remove_lacking b'_' s (All-map _ _ s (λ c p. p.0) h))

digit-IsPlain : (c : ℕ) → is_digit c ≡ true → IsPlain c
unfolding is_space
digit-IsPlain c h = ground (arith, is_digit_bounds c h)

point-IsPlain : IsPlain b'.'
unfolding is_space
point-IsPlain = (omega arith, refl)

pub digits_lack_point : (s : Bytes) → AllDigits s → Lacks b'.' s
digits_lack_point s h = All-map _ _ s (λ c q. omega (arith, is_digit_bounds c q)) h

clean_point : (w f : Bytes) → AllDigits w → AllDigits f → clean (w ++ (b'.' ∷ f)) ≡ w ++ (b'.' ∷ f)
clean_point w f hw hf = clean_plain _ (
    All-append IsPlain w (b'.' ∷ f) (All-map _ _ w digit-IsPlain hw)
      (point-IsPlain, All-map _ _ f digit-IsPlain hf))

cut_point :
    (w f : Bytes)
    → AllDigits w
    → cut b'.' (w ++ (b'.' ∷ f)) ≡ record { before = w; after = f; found = true }
cut_point w f hw = cut_at b'.' w f (digits_lack_point w hw)

parse_clean_point :
    (w f : Bytes) (d : ℕ)
    → AllDigits w
    → parse_clean (w ++ (b'.' ∷ f)) d
      ≡ fit_places (w ++ (b'.' ∷ f)) (whole_part w) (frac_part true f) d
unfolding parse_clean has_prefix
parse_clean_point [] f d hw = rw (cut_point [] f tt)
parse_clean_point (c ∷ w) f d hw =
    rw (cut_point (c ∷ w) f hw) (ground (arith, is_digit_bounds c hw.0))

parse_amount_point :
    (w f : Bytes) (d : ℕ)
    → AllDigits w
    → AllDigits f
    → parse_amount (w ++ (b'.' ∷ f)) d
      ≡ fit_places (w ++ (b'.' ∷ f)) (whole_part w) (frac_part true f) d
unfolding parse_amount
parse_amount_point w f d hw hf = rw (clean_point w f hw hf) (parse_clean_point w f d hw)

-- A whole number with no point.
pub parse_amount_whole :
    (w : Bytes) (d : ℕ) → w ≢ [] → AllDigits w → parse_amount w d ≡ fit_places w w [] d
unfolding parse_amount parse_clean has_prefix whole_part frac_part
parse_amount_whole [] d h hw = absurd (h refl)
parse_amount_whole (c ∷ w) d h hw =
    rw
      (
        clean_plain (c ∷ w) (All-map _ _ (c ∷ w) digit-IsPlain hw),
        cut_lacking b'.' (c ∷ w) (digits_lack_point (c ∷ w) hw),
      )
      (ground (arith, is_digit_bounds c hw.0))

tenfold : (n v p : ℕ) → (n * 10 ≡ (v * 10 + 0) * p) ↔ (n * 1 ≡ v * p)
tenfold n v p = (λ e. omega arith, λ e. omega arith)

-- writing a zero for a missing side does not change what the text says
missing_sides :
    (n : ℕ) (w f : Bytes) (d : ℕ)
    → (n * 10 ^ length (frac_part true f) ≡ value (whole_part w ++ frac_part true f) * 10 ^ d)
      ↔ (n * 10 ^ length f ≡ value (w ++ f) * 10 ^ d)
unfolding whole_part frac_part
missing_sides n [] [] d = (λ e. omega (arith, e), λ e. omega (arith, e))
missing_sides n [] (c ∷ f) d = (λ e. e, λ e. e)
missing_sides n (c ∷ w) [] d =
    rw (value_from-append (0 + (c - b'0')) w (b'0' ∷ []), append-nil)
      (tenfold n (value_from (0 + (c - b'0')) w) (10 ^ d))
missing_sides n (c ∷ w) (b ∷ f) d = (λ e. e, λ e. e)

whole_part_digits :
    (w : Bytes)
    → AllDigits w
    → AllDigits (whole_part w) × (whole_part w ≢ []) × (unsigned (whole_part w) ≡ whole_part w)
unfolding whole_part unsigned
whole_part_digits [] h = ((digit-is_digit 0 (omega arith), tt), λ e. cc, refl)
whole_part_digits (c ∷ w) h = (h, λ e. cc, ground (arith, is_digit_bounds c h.0))

frac_part_digits : (f : Bytes) → AllDigits f → AllDigits (frac_part true f)
unfolding frac_part
frac_part_digits [] h = (digit-is_digit 0 (omega arith), tt)
frac_part_digits (c ∷ f) h = h

module _ (w f : Bytes) (d n : ℕ) (whole_digits : AllDigits w) (frac_digits : AllDigits f) where
  point_sound : parse_amount (w ++ (b'.' ∷ f)) d ≡ ok (pos n) → IsValueOf n w f d
  point_sound h =
      let (m, read, holds) =
        rw (clean_point w f whole_digits frac_digits, cut_point w f whole_digits) at
          (parse_amount_exact (w ++ (b'.' ∷ f)) d h) in
      let same : n ≡ m = cc in
      record {
        positive = rw same holds.positive;
        whole_digits = whole_digits;
        frac_digits = frac_digits;
        exact =
            (missing_sides n w f d).0
              (rw (same, ← (whole_part_digits w whole_digits).2) holds.exact);
      }

  point_complete : IsValueOf n w f d → parse_amount (w ++ (b'.' ∷ f)) d ≡ ok (pos n)
  point_complete h =
      let (all_digits, nonempty, plain) = whole_part_digits w whole_digits in
      rw (parse_amount_point w f d whole_digits frac_digits) (
        fit_places_complete _ (whole_part w) (frac_part true f) d n nonempty h.positive all_digits
          (frac_part_digits f frac_digits) ((missing_sides n w f d).1 h.exact))

  -- For any digits on either side of the point, ParseAmount accepts with the result n exactly
  -- when n is positive and is the written value in smallest units, so excess zeros are dropped
  -- and a value that the token cannot hold is refused, never rounded.
  pub parse_amount_iff : (parse_amount (w ++ (b'.' ∷ f)) d ≡ ok (pos n)) ↔ IsValueOf n w f d
  parse_amount_iff = (point_sound, point_complete)
