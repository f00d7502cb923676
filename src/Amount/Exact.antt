-- ===== src/Amount/Exact.antt =====
-- What `ParseAmount` accepts, and that the value it returns is the written one, never rounded.
use zts_airdrop.Amount.{
  clean, check_value, scale_digits, fit_places, whole_part, frac_part, parse_clean, parse_amount,
}
use zts_airdrop.Amount.Places.{value-padded, cut_zeros, fill_places}
use zts_airdrop.Base.{
  ℕ, ◌-◌, ◌*◌, ◌^◌, ◌≤◌, ◌<◌, ◌≡◌, ◌≢◌, refl, ap, ◌∙◌, Bool, true, false, [], ◌∷◌, ◌++◌, some, none,
  Option, Bytes, Err, ℤ, pos, ok, err, ltb, ◌==◌, ==_iff, arith, All, All-append, All-append_left,
  All-append_right, All-map, length, take, drop, replicate, length-take_of_le, take-append-drop,
  Bool-cases, ltb→lt, ltb_false→le, inl, inr, is_empty,
}
use zts_airdrop.Decimal.{value, unsigned, set_string}
use zts_airdrop.Decimal.Laws.{AllDigits, digit-is_digit, set_string_sound}
use zts_airdrop.Text.{cut, has_prefix, trim_byte}
use zts_airdrop.Text.Laws.{trim_byte_empty}

-- `n` smallest units are what `w.f` whole units of a token with `d` places come to.
pub record IsValueOf (n : ℕ) (w f : Bytes) (d : ℕ) : Type 0 where
  pub positive : 0 < n
  pub whole_digits : AllDigits w
  pub frac_digits : AllDigits f
  pub exact : n * 10 ^ length f ≡ value (w ++ f) * 10 ^ d

check_value_sound :
    (s : Bytes) (o : Option ℤ) {v : ℤ} → check_value s o ≡ ok v → (o ≡ some v) × (v ≢ pos 0)
unfolding check_value
check_value_sound s none h = cc
check_value_sound s (some (pos n)) h = ground arith
check_value_sound s (some (ℤ.negsuc n)) h = ground arith

unsigned-append : (c : ℕ) (w t : Bytes) → unsigned ((c ∷ w) ++ t) ≡ unsigned (c ∷ w) ++ t
unfolding unsigned
unsigned-append c w t = ground arith

no_scale : (n v d : ℕ) → n ≡ v * 10 ^ (d - d) → n ≡ v
no_scale n v d e = let z : d - d ≡ 0 = omega arith in omega (arith, rw z at e)

pos_nonzero : {v : ℤ} {n : ℕ} → v ≡ pos n → v ≢ pos 0 → 0 < n
pos_nonzero e h = ground arith

split_digits : (s t : Bytes) → AllDigits (s ++ t) → AllDigits s × AllDigits t
split_digits s t h = (All-append_left _ s t h, All-append_right _ s t h)

scale_digits_sound :
    (s : Bytes) (c : ℕ) (w f : Bytes) (d : ℕ) {v : ℤ}
    → c ≢ b'-'
    → scale_digits s (c ∷ w) f d ≡ ok v
    → (n : ℕ) × (v ≡ pos n)
      × (0 < n)
      × AllDigits (unsigned (c ∷ w))
      × AllDigits f
      × (n ≡ value (unsigned (c ∷ w) ++ f) * 10 ^ (d - length f))
unfolding scale_digits
scale_digits_sound s c w f d {v} h e =
    let t = f ++ replicate (d - length f) b'0' in
    let (read, nonzero) = check_value_sound s (set_string ((c ∷ w) ++ t)) e in
    let (all_digits, exact) = set_string_sound c (w ++ t) h read in
    let joined = unsigned-append c w t in
    let (whole_digits, rest) = split_digits (unsigned (c ∷ w)) t (rw joined at all_digits) in
    let reads = exact ∙ ap (λ u. pos (value u)) joined in
    (
      value (unsigned (c ∷ w) ++ t),
      reads,
      pos_nonzero reads nonzero,
      whole_digits,
      All-append_left _ f _ rest,
      value-padded (unsigned (c ∷ w)) f (d - length f),
    )

is_empty_eq : (s : Bytes) → is_empty s ≡ true → s ≡ []
is_empty_eq [] h = refl
is_empty_eq (c ∷ s) h = cc

false_ne_true : {b : Bool} → b ≡ false → b ≡ true → ⊥
false_ne_true e q = cc

ok_ne_err : {v : ℤ} {e : Err} → err e ≡ ok v → ⊥
ok_ne_err h = cc

-- the written places fit
keep_places_sound :
    (s : Bytes) (c : ℕ) (w f : Bytes) (d : ℕ) {v : ℤ}
    → c ≢ b'-'
    → length f ≤ d
    → scale_digits s (c ∷ w) f d ≡ ok v
    → (n : ℕ) × (v ≡ pos n) × IsValueOf n (unsigned (c ∷ w)) f d
keep_places_sound s c w f d h short e =
    let (n, read, positive, whole, frac, exact) = scale_digits_sound s c w f d h e in
    (
      n,
      read,
      record {
        positive = positive;
        whole_digits = whole;
        frac_digits = frac;
        exact = fill_places n (unsigned (c ∷ w)) f d short exact;
      },
    )

-- the places behind the token's are zeros
cut_places_sound :
    (s : Bytes) (c : ℕ) (w f : Bytes) (d : ℕ) {v : ℤ}
    → c ≢ b'-'
    → d < length f
    → All (λ b. b ≡ b'0') (drop d f)
    → scale_digits s (c ∷ w) (take d f) d ≡ ok v
    → (n : ℕ) × (v ≡ pos n) × IsValueOf n (unsigned (c ∷ w)) f d
cut_places_sound s c w f d h long zeros e =
    let (n, read, positive, whole, frac, exact) = scale_digits_sound s c w (take d f) d h e in
    let size : length (take d f) ≡ d = length-take_of_le d f (omega arith) in
    let scaled : n ≡ value (unsigned (c ∷ w) ++ take d f) * 10 ^ (d - d) = rw size at exact in
    (
      n,
      read,
      record {
        positive = positive;
        whole_digits = whole;
        frac_digits = rw take-append-drop at (
            All-append _ (take d f) (drop d f) frac
              (All-map _ _ (drop d f) (λ b q. rw q (digit-is_digit 0 (omega arith))) zeros));
        exact = cut_zeros n (unsigned (c ∷ w)) f d long zeros (no_scale n _ d scaled);
      },
    )

-- Whatever `fit_places` accepts is the written value.
fit_places_sound :
    (s : Bytes) (c : ℕ) (w f : Bytes) (d : ℕ) {v : ℤ}
    → c ≢ b'-'
    → fit_places s (c ∷ w) f d ≡ ok v
    → (n : ℕ) × (v ≡ pos n) × IsValueOf n (unsigned (c ∷ w)) f d
unfolding fit_places
fit_places_sound s c w f d {v} h e = elim (Bool-cases (ltb d (length f))) [
  | inl long ↦ elim (Bool-cases (is_empty (trim_byte b'0' (drop d f)))) [
    | inl zeros ↦
        cut_places_sound s c w f d h (ltb→lt _ _ long)
          (trim_byte_empty b'0' (drop d f) (is_empty_eq _ zeros))
          (rw (fit_places, long, zeros) at e)
    | inr more ↦ absurd (ok_ne_err (rw (fit_places, long, more) at e))
  ]
  | inr short ↦ keep_places_sound s c w f d h (ltb_false→le _ _ short) (rw (fit_places, short) at e)
]

-- a leading byte that is no minus sign is the first of the whole part, or the point
head_of_whole :
    (c : ℕ) (s : Bytes)
    → c ≢ b'-'
    → (b : ℕ) × (w : Bytes) × (whole_part (cut b'.' (c ∷ s)).before ≡ b ∷ w) × (b ≢ b'-')
unfolding cut whole_part
head_of_whole c s h = elim (Bool-cases (c == b'.')) [
  | inl point ↦ (b'0', [], rw point, omega arith)
  | inr other ↦ (c, (cut b'.' s).before, rw other, h)
]

parse_clean_sound :
    (s : Bytes) (d : ℕ) {v : ℤ}
    → parse_clean s d ≡ ok v
    → let p = cut b'.' s in
      (n : ℕ) × (v ≡ pos n)
      × IsValueOf n (unsigned (whole_part p.before)) (frac_part p.found p.after) d
unfolding parse_clean has_prefix
parse_clean_sound [] d e = absurd (ok_ne_err e)
parse_clean_sound (c ∷ s) d {v} e = elim (Bool-cases (c == b'-')) [
  | inl minus ↦ absurd (ok_ne_err (rw (parse_clean, has_prefix, minus) at e))
  | inr other ↦
      let (b, w, first, no_minus) =
        head_of_whole c s (λ q. false_ne_true other ((==_iff c _).1 q)) in
      let fitted : fit_places (c ∷ s) (whole_part (cut b'.' (c ∷ s)).before)
            (frac_part (cut b'.' (c ∷ s)).found (cut b'.' (c ∷ s)).after) d
          ≡ ok v =
        rw (parse_clean, has_prefix, other) at e in
      rw first (fit_places_sound (c ∷ s) b w _ d no_minus (rw first at fitted))
]

-- Whatever text ParseAmount accepts, the result is a positive number of smallest units and is
-- exactly the value of the digits before and behind the point, an optional plus sign aside.
pub parse_amount_exact :
    (s : Bytes) (d : ℕ) {v : ℤ}
    → parse_amount s d ≡ ok v
    → let p = cut b'.' (clean s) in
      (n : ℕ) × (v ≡ pos n)
      × IsValueOf n (unsigned (whole_part p.before)) (frac_part p.found p.after) d
unfolding parse_amount
parse_amount_exact s d e = parse_clean_sound (clean s) d e
