-- ===== src/Text/Laws.antt =====
-- What trimming, removing and cutting do to texts that lack, or end in, the byte in question.
use zts_airdrop.Base.{
  ℕ, suc, ◌-◌, ◌≤◌, ◌≡◌, ◌≢◌, refl, ap, Bool, true, false, [], ◌∷◌, ◌++◌, Bytes, arith, ◌==◌,
  ==_iff, ==_refl, length, replicate, All, All-map, Bool-cases, inl, inr,
}
use zts_airdrop.Text.{
  is_space, trim_left, keep, trim_right, trim_space, trim_byte, remove, cut, same_text,
}

-- no byte of the text is the given one
abbrev pub Lacks : ℕ → Bytes → Type 0
Lacks k = All (λ c. c ≢ k)

abbrev pub AllPass : (ℕ → Bool) → Bytes → Type 0
AllPass p = All (λ c. p c ≡ true)

abbrev pub AllFail : (ℕ → Bool) → Bytes → Type 0
AllFail p = All (λ c. p c ≡ false)

pub remove_lacking : (k : ℕ) (s : Bytes) → Lacks k s → remove k s ≡ s
unfolding remove
remove_lacking k [] h = refl
remove_lacking k (c ∷ s) h = ground (arith, remove_lacking k s h.1)

pub cut_at :
    (k : ℕ) (w f : Bytes)
    → Lacks k w
    → cut k (w ++ (k ∷ f)) ≡ record { before = w; after = f; found = true }
unfolding cut
cut_at k [] f h = rw ==_refl
cut_at k (c ∷ w) f h = ground (arith, cut_at k w f h.1)

pub cut_lacking :
    (k : ℕ) (w : Bytes) → Lacks k w → cut k w ≡ record { before = w; after = []; found = false }
unfolding cut
cut_lacking k [] h = refl
cut_lacking k (c ∷ w) h = ground (arith, cut_lacking k w h.1)

pub trim_left_of_fail : (p : ℕ → Bool) (s : Bytes) → AllFail p s → trim_left p s ≡ s
unfolding trim_left
trim_left_of_fail p [] h = refl
trim_left_of_fail p (c ∷ s) h = rw h.0

pub trim_right_of_fail : (p : ℕ → Bool) (s : Bytes) → AllFail p s → trim_right p s ≡ s
unfolding trim_right keep
trim_right_of_fail p [] h = refl
trim_right_of_fail p (c ∷ s) h = rw (trim_right_of_fail p s h.1, h.0)

pub trim_space_of_fail : (s : Bytes) → AllFail is_space s → trim_space s ≡ s
unfolding trim_space
trim_space_of_fail s h = rw (trim_left_of_fail is_space s h) (trim_right_of_fail is_space s h)

sub_zero : (n : ℕ) → n - 0 ≡ n
sub_zero n = omega arith

sub_suc : (n m : ℕ) → suc n - suc m ≡ n - m
sub_suc n m = omega arith

-- the byte put before a trimmed text, when what the trim dropped from the text is a run of `k`
keep-append :
    (k c : ℕ) (s r : Bytes)
    → length r ≤ length s
    → r ++ replicate (length s - length r) k ≡ s
    → let t = keep (λ b. b == k) c r in
      (length t ≤ suc (length s)) × (t ++ replicate (suc (length s) - length t) k ≡ c ∷ s)
unfolding keep
keep-append k c s [] short e = elim (Bool-cases (c == k)) [
  | inl same ↦
      rw same
        (omega arith, cc (e, (==_iff c k).0 same, sub_zero (suc (length s)), sub_zero (length s)))
  | inr other ↦ rw other (omega arith, rw (sub_suc (length s) 0) (ap (◌∷◌ c) e))
]
keep-append k c s (x ∷ r) short e = elim (Bool-cases (c == k)) [
  | inl same ↦ rw same (omega arith, rw (sub_suc (length s) _) (ap (◌∷◌ c) e))
  | inr other ↦ rw other (omega arith, rw (sub_suc (length s) _) (ap (◌∷◌ c) e))
]

-- what a right trim drops is a run of the byte
pub trim_right-append :
    (k : ℕ) (s : Bytes)
    → let t = trim_right (λ c. c == k) s in
      (length t ≤ length s) × (t ++ replicate (length s - length t) k ≡ s)
unfolding trim_right
trim_right-append k [] = (omega arith, refl)
trim_right-append k (c ∷ s) =
    let (short, e) = trim_right-append k s in keep-append k c s (trim_right (λ b. b == k) s) short e

trim_left_of_pass : (p : ℕ → Bool) (s : Bytes) → AllPass p s → trim_left p s ≡ []
unfolding trim_left
trim_left_of_pass p [] h = refl
trim_left_of_pass p (c ∷ s) h = rw h.0 (trim_left_of_pass p s h.1)

-- a text of one byte only is trimmed away
pub trim_byte_of_All : (k : ℕ) (s : Bytes) → All (λ c. c ≡ k) s → trim_byte k s ≡ []
unfolding trim_byte
trim_byte_of_All k s h =
    rw (trim_left_of_pass (λ c. c == k) s (All-map (λ c. c ≡ k) _ s (λ c e. (==_iff c k).1 e) h))

trim_right_empty : (k : ℕ) (s : Bytes) → trim_right (λ c. c == k) s ≡ [] → All (λ c. c ≡ k) s
unfolding trim_right keep
trim_right_empty k [] h = tt
trim_right_empty k (c ∷ s) h = ground (arith, trim_right_empty k s)

trim_left-All :
    (k : ℕ) (s : Bytes) → All (λ c. c ≡ k) (trim_left (λ c. c == k) s) → All (λ c. c ≡ k) s
unfolding trim_left
trim_left-All k [] h = tt
trim_left-All k (c ∷ s) h = ground (arith, trim_left-All k s)

-- a text that a trim empties is a run of the byte
pub trim_byte_empty : (k : ℕ) (s : Bytes) → trim_byte k s ≡ [] → All (λ c. c ≡ k) s
unfolding trim_byte
trim_byte_empty k s h = trim_left-All k s (trim_right_empty k _ h)

pub same_text_refl : (s : Bytes) → same_text s s ≡ true
unfolding same_text
same_text_refl [] = refl
same_text_refl (c ∷ s) = ground (arith, same_text_refl s)

pub same_text_sound : (s t : Bytes) → same_text s t ≡ true → s ≡ t
unfolding same_text
same_text_sound [] [] h = refl
same_text_sound [] (c ∷ t) h = ground arith
same_text_sound (b ∷ s) [] h = ground arith
same_text_sound (b ∷ s) (c ∷ t) h = ground (arith, same_text_sound s t)
