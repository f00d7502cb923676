-- ===== src/Amount/Complete.antt =====
-- Every written decimal that has an exact value in smallest units is accepted, and no other is.
use native.Mathlib.Decide.{dec_lt}
use zts_airdrop.Amount.{check_value, scale_digits, fit_places}
use zts_airdrop.Amount.Places.{value-padded, value_split, length_split}
use zts_airdrop.Base.{
  ℕ, zero, suc, ◌+◌, ◌-◌, ◌*◌, ◌^◌, ◌≤◌, ◌<◌, ◌≡◌, ◌≢◌, refl, ap, ◌∙◌, sym, true, [], ◌∷◌, ◌++◌,
  some, Bytes, pos, ok, ltb, arith, All, All-append, All-append_left, All-append_right,
  All-replicate, length, take, drop, replicate, length-take_of_le, take-append-drop, Bool-cases,
  inl, inr, ltb→lt, ltb_false→le,
}
use zts_airdrop.Decimal.{value, is_digit}
use zts_airdrop.Decimal.Laws.{
  AllDigits, digit-is_digit, pow-add, pow-pos, value_bound, value_zero, set_string_of_text,
}
use zts_airdrop.Text.Laws.{trim_byte_of_All}

cancel : (n m p : ℕ) → 0 < p → n * p ≡ m * p → n ≡ m
cancel n m p h e = grind arith

above : (a m r p : ℕ) → r < p → (suc a + m) * p ≡ a * p + r → ⊥
above a m r p h e = omega arith

below : (n m r p : ℕ) → r < p → n * p ≡ (n + m) * p + r → (r ≡ 0) × (n ≡ n + m)
below n zero r p h e = omega arith
below n (suc m) r p h e = absurd (omega arith)

divide_exactly : (n a r p : ℕ) → r < p → n * p ≡ a * p + r → (r ≡ 0) × (n ≡ a)
divide_exactly n a r p h e = elim (dec_lt a n) [
  | yes more ↦
      let k : n ≡ suc a + (n - suc a) = omega arith in
      absurd (above a (n - suc a) r p h (ap (λ t. t * p) (sym k) ∙ e))
  | no less ↦
      let k : n + (a - n) ≡ a = omega arith in
      rw k at (below n (a - n) r p h (e ∙ ap (λ t. t * p + r) (sym k)))
]

check_value_complete : (s : Bytes) (n : ℕ) → 0 < n → check_value s (some (pos n)) ≡ ok (pos n)
unfolding check_value
check_value_complete s n h = ground arith

append-ne-nil : (w t : Bytes) → w ≢ [] → w ++ t ≢ []
append-ne-nil [] t h = absurd (h refl)
append-ne-nil (c ∷ w) t h = λ e. cc

no_scale : (n v d : ℕ) → n ≡ v → n ≡ v * 10 ^ (d - d)
no_scale n v d e = let z : d - d ≡ 0 = omega arith in rw z (omega arith)

module _ (s w f : Bytes) (d n : ℕ) (nonempty : w ≢ []) (positive : 0 < n)
    (whole_digits : AllDigits w) where
  scale_digits_complete :
      AllDigits f → n ≡ value (w ++ f) * 10 ^ (d - length f) → scale_digits s w f d ≡ ok (pos n)
  unfolding scale_digits
  scale_digits_complete h e =
      let zero_digits =
        All-replicate (λ c. is_digit c ≡ true) (d - length f) b'0'
          (digit-is_digit 0 (omega arith)) in
      let all_digits =
        All-append _ w (f ++ replicate (d - length f) b'0') whole_digits
          (All-append _ f (replicate (d - length f) b'0') h zero_digits) in
      rw
        (
          set_string_of_text _ (append-ne-nil w _ nonempty) all_digits,
          value-padded w f (d - length f),
          ← e,
        )
        (check_value_complete s n positive)

-- the padding that makes up the places, from the exact equation
filled : (n v d l : ℕ) → l ≤ d → n * 10 ^ l ≡ v * 10 ^ d → n ≡ v * 10 ^ (d - l)
filled n v d l short e =
    let p : 10 ^ d ≡ 10 ^ (d - l) * 10 ^ l = ap (λ k. 10 ^ k) (omega arith) ∙ pow-add (d - l) l in
    cancel n (v * 10 ^ (d - l)) (10 ^ l) (pow-pos l) (omega (arith, e, ap (λ q. v * q) p))

-- the places that are cut off come to nothing, from the exact equation
cut_off :
    (n a b : ℕ) (d k : ℕ)
    → b < 10 ^ k
    → n * 10 ^ (d + k) ≡ (a * 10 ^ k + b) * 10 ^ d
    → (b ≡ 0) × (n ≡ a)
cut_off n a b d k h e = divide_exactly n a b (10 ^ k) h (
    cancel (n * 10 ^ k) (a * 10 ^ k + b) (10 ^ d) (pow-pos d)
      (omega (arith, e, ap (λ q. n * q) (pow-add d k))))

module _ (s w f : Bytes) (d n : ℕ) (nonempty : w ≢ []) (positive : 0 < n)
    (whole_digits : AllDigits w) (frac_digits : AllDigits f)
    (exact : n * 10 ^ length f ≡ value (w ++ f) * 10 ^ d) where
  cut_places_complete :
      d < length f → All (λ c. c ≡ b'0') (drop d f) × (scale_digits s w (take d f) d ≡ ok (pos n))
  cut_places_complete long =
      let parts : AllDigits (take d f ++ drop d f) = rw take-append-drop frac_digits in
      let kept = All-append_left _ (take d f) (drop d f) parts in
      let cut_digits = All-append_right _ (take d f) (drop d f) parts in
      let (nothing, same) =
        cut_off n (value (w ++ take d f)) (value (drop d f)) d (length (drop d f))
          (value_bound (drop d f) cut_digits)
          (rw (value_split w f d, length_split f d (omega arith)) at exact) in
      let size : length (take d f) ≡ d = length-take_of_le d f (omega arith) in
      (
        value_zero (drop d f) cut_digits nothing,
        scale_digits_complete s w (take d f) d n nonempty positive whole_digits kept
            (rw size (no_scale n (value (w ++ take d f)) d same)),
      )

  -- An exact positive value is accepted.
  pub fit_places_complete : fit_places s w f d ≡ ok (pos n)
  unfolding fit_places
  fit_places_complete = elim (Bool-cases (ltb d (length f))) [
    | inl long ↦
        let (zeros, scaled) = cut_places_complete (ltb→lt _ _ long) in
        rw (long, trim_byte_of_All b'0' (drop d f) zeros) scaled
    | inr short ↦ rw short (
        scale_digits_complete s w f d n nonempty positive whole_digits frac_digits
          (filled n (value (w ++ f)) d (length f) (ltb_false→le _ _ short) exact))
  ]
