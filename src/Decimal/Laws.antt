-- ===== src/Decimal/Laws.antt =====
-- Decimal print and read are inverse, and how the value of a text splits.
use Prim.Native.Nat.add
use mathlib.Core.List.{concat-ne-nil, cons-ne-nil}
use native.Mathlib.Nat.{pow-suc}
use zts_airdrop.Base.{
  is_empty, false, All-map, ℕ, zero, suc, ◌+◌, ◌-◌, ◌*◌, ◌/◌, ◌%◌, ◌^◌, ◌≤◌, ◌<◌, ◌≡◌, ◌≢◌, refl,
  ap, true, [], ◌∷◌, ◌++◌, Option, none, some, Bytes, pos, ltb, ℤ, arith, All, All-append, length,
  length-append, replicate, Bool-cases, inl, inr, ltb→lt,
}
use zts_airdrop.Decimal.{
  digit, digits, decimal, is_digit, value_from, value, scan, scan_digits, unsigned, positive,
  set_string,
}
use zts_airdrop.Text.Laws.{Lacks}

abbrev pub AllDigits : Bytes → Type 0
AllDigits = All (λ c. is_digit c ≡ true)

pub digit-is_digit : (n : ℕ) → n < 10 → is_digit (digit n) ≡ true
unfolding is_digit
digit-is_digit n h = ground arith

pub is_digit_bounds : (c : ℕ) → is_digit c ≡ true → (b'0' ≤ c) × (c ≤ b'9')
unfolding is_digit
is_digit_bounds c h = ground arith

pub value_from-append :
    (n : ℕ) (s t : Bytes) → value_from n (s ++ t) ≡ value_from (value_from n s) t
value_from-append n [] t = refl
value_from-append n (c ∷ s) t = value_from-append (n * 10 + (c - b'0')) s t

shift_step : (n d p v : ℕ) → (n * 10 + d) * p + v ≡ n * (p * 10) + ((0 * 10 + d) * p + v)
shift_step n d p v = omega arith

pub value_from_shift : (n : ℕ) (s : Bytes) → value_from n s ≡ n * 10 ^ length s + value s
value_from_shift n [] = omega arith
value_from_shift n (c ∷ s) =
    rw (value_from_shift (n * 10 + (c - b'0')) s, value_from_shift (0 * 10 + (c - b'0')) s)
      (rw (pow-suc 10 (length s)) (shift_step n (c - b'0') _ _))

pub value_from-replicate : (n k : ℕ) → value_from n (replicate k b'0') ≡ n * 10 ^ k
value_from-replicate n zero = omega arith
value_from-replicate n (suc k) =
    rw (value_from-replicate (n * 10 + 0) k, pow-suc 10 k) (omega arith)

digits-AllDigits : (fuel n : ℕ) → AllDigits (digits fuel n)
unfolding digits
digits-AllDigits zero n = tt
digits-AllDigits (suc fuel) n = elim (Bool-cases (ltb n 10)) [
  | inl small ↦ rw small (digit-is_digit n (ltb→lt n 10 small), tt)
  | inr large ↦ rw large (
      All-append _ (digits fuel (n / 10)) _ (digits-AllDigits fuel (n / 10))
        (digit-is_digit (n % 10) (omega arith), tt))
]

digits-value : (fuel n : ℕ) → n < fuel → value (digits fuel n) ≡ n
unfolding digits
digits-value zero n h = elim h [ ]
digits-value (suc fuel) n h = elim (Bool-cases (ltb n 10)) [
  | inl small ↦ rw small (omega arith)
  | inr large ↦
      rw (large, value_from-append 0 (digits fuel (n / 10)) _)
        (ground (arith, digits-value fuel (n / 10)))
]

digits-ne-nil : (fuel n : ℕ) → digits (suc fuel) n ≢ []
unfolding digits
digits-ne-nil fuel n h = elim (Bool-cases (ltb n 10)) [
  | inl small ↦ cons-ne-nil (digit n) [] (rw (digits, small) at h)
  | inr large ↦ concat-ne-nil (digit (n % 10)) (digits fuel (n / 10)) (rw (digits, large) at h)
]

-- `d` digits spell every number below `10 ^ d`
digits-length : (fuel n d : ℕ) → n < 10 ^ suc d → length (digits fuel n) ≤ suc d
unfolding digits
digits-length zero n d h = omega arith
digits-length (suc fuel) n zero h = ground arith
digits-length (suc fuel) n (suc d) h = ground (
  arith,
  digits-length fuel (n / 10) d (omega (arith, pow-suc 10 (suc d))),
  length-append {0} (digits fuel (n / 10)) (digit (n % 10) ∷ []),
)

scan_of_digits : (n : ℕ) (s : Bytes) → AllDigits s → scan n s ≡ some (value_from n s)
unfolding scan
scan_of_digits n [] h = refl
scan_of_digits n (c ∷ s) h = rw h.0 (scan_of_digits (n * 10 + (c - b'0')) s h.1)

pub scan_sound :
    (n : ℕ) (s : Bytes) {r : ℕ} → scan n s ≡ some r → AllDigits s × (r ≡ value_from n s)
unfolding scan
scan_sound n [] h = (tt, ground arith)
scan_sound n (c ∷ s) {r} h = ground (arith, scan_sound (n * 10 + (c - b'0')) s {r = r})

-- A text of digits is read as its value.
pub set_string_of_digits :
    (c : ℕ) (s : Bytes) → AllDigits (c ∷ s) → set_string (c ∷ s) ≡ some (pos (value (c ∷ s)))
unfolding set_string
set_string_of_digits c s h =
    let e = scan_of_digits 0 (c ∷ s) h in ground (arith, is_digit_bounds c h.0)

pub decimal-AllDigits : (n : ℕ) → AllDigits (decimal n)
unfolding decimal
decimal-AllDigits n = digits-AllDigits (suc n) n

-- The text of a number has its value.
pub value-decimal : (n : ℕ) → value (decimal n) ≡ n
unfolding decimal
value-decimal n = digits-value (suc n) n (omega arith)

pub decimal-ne-nil : (n : ℕ) → decimal n ≢ []
unfolding decimal
decimal-ne-nil n = digits-ne-nil n n

pub decimal-length : (n d : ℕ) → n < 10 ^ suc d → length (decimal n) ≤ suc d
unfolding decimal
decimal-length n d h = digits-length (suc n) n d h

-- Two numbers with one text are one number.
pub decimal-injective : (n m : ℕ) → decimal n ≡ decimal m → n ≡ m
decimal-injective n m e = cc (value-decimal n, value-decimal m, ap value e)

pub set_string_of_text : (s : Bytes) → s ≢ [] → AllDigits s → set_string s ≡ some (pos (value s))
set_string_of_text [] nonempty h = absurd (nonempty refl)
set_string_of_text (c ∷ s) nonempty h = set_string_of_digits c s h

-- `SetString` reads back what `String` prints.
pub set_string-decimal : (n : ℕ) → set_string (decimal n) ≡ some (pos n)
set_string-decimal n =
    rw (set_string_of_text (decimal n) (decimal-ne-nil n) (decimal-AllDigits n), value-decimal n)

pub pow-add : (a b : ℕ) → 10 ^ (a + b) ≡ 10 ^ a * 10 ^ b
pow-add zero b = rw add.zero (omega arith)
pow-add (suc a) b = rw (add.suc, pow-suc 10 (a + b), pow-suc 10 a, pow-add a b) (omega arith)

scan_digits_sound : (s : Bytes) {n : ℕ} → scan_digits s ≡ some n → AllDigits s × (n ≡ value s)
unfolding scan_digits
scan_digits_sound [] h = cc
scan_digits_sound (c ∷ s) h = scan_sound 0 (c ∷ s) h

positive_sound : (o : Option ℕ) {v : ℤ} → positive o ≡ some v → (n : ℕ) × (o ≡ some n) × (v ≡ pos n)
positive_sound none h = cc
positive_sound (some n) h = (n, refl, cc)

-- What `SetString` reads behind no minus sign is the value of digits.
pub set_string_sound :
    (c : ℕ) (s : Bytes) {v : ℤ}
    → c ≢ b'-'
    → set_string (c ∷ s) ≡ some v
    → AllDigits (unsigned (c ∷ s)) × (v ≡ pos (value (unsigned (c ∷ s))))
unfolding set_string
set_string_sound c s {v} h e =
    let (n, found, exact) =
      positive_sound (scan_digits (unsigned (c ∷ s))) {v = v} (ground arith) in
    let (all_digits, read) = scan_digits_sound (unsigned (c ∷ s)) found in (all_digits, cc)

head_bound : (d p v : ℕ) → d ≤ 9 → v < p → (0 * 10 + d) * p + v < p * 10
head_bound d p v h k = grind arith

head_zero : (d p v : ℕ) → 0 < p → (0 * 10 + d) * p + v ≡ 0 → (d ≡ 0) × (v ≡ 0)
head_zero d p v h e = grind arith

pub pow-pos : (n : ℕ) → 0 < 10 ^ n
pow-pos zero = omega arith
pow-pos (suc n) = rw (pow-suc 10 n) (omega (arith, pow-pos n))

pub value_bound : (s : Bytes) → AllDigits s → value s < 10 ^ length s
value_bound [] h = omega arith
value_bound (c ∷ s) h =
    rw (value_from_shift (0 * 10 + (c - b'0')) s, pow-suc 10 (length s))
      (head_bound (c - b'0') (10 ^ length s) (value s) (omega (arith, is_digit_bounds c h.0))
        (value_bound s h.1))

-- digits of value zero are zeros
pub value_zero : (s : Bytes) → AllDigits s → value s ≡ 0 → All (λ c. c ≡ b'0') s
value_zero [] h e = tt
value_zero (c ∷ s) h e =
    let split = value_from_shift (0 * 10 + (c - b'0')) s in
    let (none_here, none_there) =
      head_zero (c - b'0') (10 ^ length s) (value s) (pow-pos (length s))
        (omega (arith, e, split)) in
    (omega (arith, is_digit_bounds c h.0), value_zero s h.1 none_there)

pub zeros_value : (s : Bytes) → All (λ c. c ≡ b'0') s → value s ≡ 0
zeros_value [] h = refl
zeros_value (c ∷ s) h = rw h.0 (zeros_value s h.1)

pub replicate_of_All : (k : ℕ) (s : Bytes) → All (λ c. c ≡ k) s → s ≡ replicate (length s) k
replicate_of_All k [] h = refl
replicate_of_All k (c ∷ s) h = cc (h.0, replicate_of_All k s h.1)

-- digits hold no byte that is not a digit
pub AllDigits-Lacks : (k : ℕ) (s : Bytes) → is_digit k ≡ false → AllDigits s → Lacks k s
unfolding is_digit
AllDigits-Lacks k s h = All-map (λ c. is_digit c ≡ _) _ s (λ c d e. ground arith)

-- a text that is not the empty one
pub full_text : (s : Bytes) → s ≢ [] → is_empty s ≡ false
full_text [] h = absurd (h refl)
full_text (c ∷ s) h = refl
