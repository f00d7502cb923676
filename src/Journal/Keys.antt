-- ===== src/Journal/Keys.antt =====
-- Runs with one key.
use zts_airdrop.Base.{
  ℕ, suc, ◌≡◌, ◌≢◌, refl, sym, ap, ◌∙◌, ◌⊎◌, inl, inr, ◌∷◌, ◌++◌, Bytes, ℤ, pos, negsuc, arith,
  take, drop,
}
use zts_airdrop.Decimal.{decimal, decimal_int, is_digit}
use zts_airdrop.Decimal.Laws.{AllDigits-Lacks, decimal-AllDigits, decimal-injective}
use zts_airdrop.Journal.{run_preimage, run_key}
use zts_airdrop.Sort.{text_cases}
use zts_airdrop.Text.{cut}
use zts_airdrop.Text.Laws.{Lacks, cut_at}
use zts_airdrop.Zenon.{Zenon, IsLawful}

decimal-Lacks : (n : ℕ) → Lacks b'|' (decimal n)
unfolding is_digit
decimal-Lacks n = AllDigits-Lacks b'|' (decimal n) refl (decimal-AllDigits n)

decimal_int-Lacks : (v : ℤ) → Lacks b'|' (decimal_int v)
unfolding decimal_int
decimal_int-Lacks (pos n) = decimal-Lacks n
decimal_int-Lacks (negsuc n) = ((λ e. omega arith), decimal-Lacks (suc n))

-- a text with a bar behind it is set off by that bar
barred :
    (s t f g : Bytes)
    → Lacks b'|' s
    → Lacks b'|' t
    → s ++ (b'|' ∷ f) ≡ t ++ (b'|' ∷ g)
    → (s ≡ t) × (f ≡ g)
barred s t f g h k e =
    let same = sym (cut_at b'|' s f h) ∙ ap (cut b'|') e ∙ cut_at b'|' t g k in
    (ap (λ p. p.before) same, ap (λ p. p.after) same)

minus_first : (n m : ℕ) → decimal n ≢ b'-' ∷ decimal m
unfolding is_digit
minus_first n m e = let digits = rw e at (decimal-AllDigits n) in absurd (ground (arith, digits))

decimal_int-injective : (v u : ℤ) → decimal_int v ≡ decimal_int u → v ≡ u
unfolding decimal_int
decimal_int-injective (pos n) (pos m) e = ap pos (decimal-injective n m e)
decimal_int-injective (pos n) (negsuc m) e = absurd (minus_first n (suc m) e)
decimal_int-injective (negsuc n) (pos m) e = absurd (minus_first m (suc n) (sym e))
decimal_int-injective (negsuc n) (negsuc m) e =
    let same = decimal-injective (suc n) (suc m) (ap (drop 1) e) in
    let e' : n ≡ m = omega (arith, same) in ap negsuc e'

module _ (Z : Zenon) (lawful : IsLawful Z) where
  -- two texts whose hashes begin with the same 16 digits
  abbrev pub IsShortCollision : Bytes → Bytes → Type 0
  IsShortCollision x y = (x ≢ y) × (take 16 (Z.sha256_hex x) ≡ take 16 (Z.sha256_hex y))

  module _ (zts zts' : Z.Zts) (amount amount' : ℤ) (from from' to to' : ℕ) where
    preimage_injective :
        run_preimage Z zts amount from to ≡ run_preimage Z zts' amount' from' to'
        → (zts ≡ zts') × (amount ≡ amount') × (from ≡ from') × (to ≡ to')
    unfolding run_preimage
    preimage_injective e =
        let (z, r) =
          barred (Z.zts_string zts) (Z.zts_string zts') _ _ (lawful.zts_string_bar zts)
            (lawful.zts_string_bar zts') e in
        let (a, q) =
          barred (decimal_int amount) (decimal_int amount') _ _ (decimal_int-Lacks amount)
            (decimal_int-Lacks amount') r in
        let (f, t) =
          barred (decimal from) (decimal from') _ _ (decimal-Lacks from) (decimal-Lacks from') q in
        (
          lawful.zts_string_injective zts zts' z,
          decimal_int-injective amount amount' a,
          decimal-injective from from' f,
          decimal-injective to to' t,
        )

    -- Two runs with one RunKey have the same token, amount and range, or else the two
    -- different texts that were hashed have SHA-256 sums that begin with the same 16 digits.
    -- It assumes the documented behaviour of token standards' texts, IsLawful.
    pub run_key_separates :
        run_key Z zts amount from to ≡ run_key Z zts' amount' from' to'
        → ((zts ≡ zts') × (amount ≡ amount') × (from ≡ from') × (to ≡ to'))
          ⊎ IsShortCollision
              (run_preimage Z zts amount from to)
              (run_preimage Z zts' amount' from' to')
    unfolding run_key
    run_key_separates e =
        elim (text_cases (run_preimage Z zts amount from to)
          (run_preimage Z zts' amount' from' to')) [
            | inl same ↦ inl (preimage_injective same)
            | inr differ ↦ inr (differ, e)
          ]
