-- ===== src/Journal/Lines.antt =====
-- How the scanner's lines of a text split where the text does.
use zts_airdrop.Base.{
  ℕ, ◌≡◌, refl, ap, ◌∙◌, false, List, [], ◌∷◌, ◌++◌, Bytes, arith, ◌==◌, ==_iff, is_empty,
  Bool-cases, inl, inr,
}
use zts_airdrop.Journal.{push, split_lines, drop_cr}
use zts_airdrop.Text.Laws.{Lacks}

-- a text whose last line, if it has one, ends in a newline
abbrev pub IsWhole : Bytes → Type 0
IsWhole [] = Unit
IsWhole (c ∷ []) = c ≡ 10
IsWhole (c ∷ d ∷ s) = IsWhole (d ∷ s)

push-append :
    (c : ℕ) (ls ms : List Bytes) → is_empty ls ≡ false → push c (ls ++ ms) ≡ push c ls ++ ms
unfolding push
push-append c [] ms h = ground arith
push-append c (l ∷ ls) ms h = refl

push-nonempty : (c : ℕ) (ls : List Bytes) → is_empty (push c ls) ≡ false
unfolding push
push-nonempty c [] = refl
push-nonempty c (l ∷ ls) = refl

split_lines-nonempty : (c : ℕ) (s : Bytes) → is_empty (split_lines (c ∷ s)) ≡ false
unfolding split_lines push
split_lines-nonempty c s = elim (Bool-cases (c == 10)) [
  | inl e ↦ rw e refl
  | inr e ↦ rw e (push-nonempty c (split_lines s))
]

-- Behind a whole text the lines begin anew.
pub split_lines-append :
    (t u : Bytes) → IsWhole t → split_lines (t ++ u) ≡ split_lines t ++ split_lines u
unfolding split_lines
split_lines-append [] u h = refl
split_lines-append (c ∷ []) u h = rw ((==_iff c 10).1 h) refl
split_lines-append (c ∷ d ∷ s) u h = elim (Bool-cases (c == 10)) [
  | inl e ↦ rw e (ap (◌∷◌ []) (split_lines-append (d ∷ s) u h))
  | inr e ↦ rw e (
      ap (push c) (split_lines-append (d ∷ s) u h)
      ∙ push-append c (split_lines (d ∷ s)) (split_lines u) (split_lines-nonempty d s))
]

-- a line with its newline is one line
pub split_lines-line : (s : Bytes) → Lacks 10 s → split_lines (s ++ (10 ∷ [])) ≡ s ∷ []
unfolding split_lines push
split_lines-line [] h = refl
split_lines-line (c ∷ s) h = ground (arith, split_lines-line s h.1)

IsWhole-line : (s : Bytes) → IsWhole (s ++ (10 ∷ []))
IsWhole-line [] = refl
IsWhole-line (c ∷ []) = refl
IsWhole-line (c ∷ d ∷ s) = IsWhole-line (d ∷ s)

pub IsWhole-append : (t s : Bytes) → IsWhole t → IsWhole (t ++ (s ++ (10 ∷ [])))
IsWhole-append [] s h = IsWhole-line s
IsWhole-append (c ∷ []) s h = IsWhole-line (c ∷ s)
IsWhole-append (c ∷ d ∷ t) s h = IsWhole-append (d ∷ t) s h

pub drop_cr_lacking : (s : Bytes) → Lacks 13 s → drop_cr s ≡ s
unfolding drop_cr
drop_cr_lacking [] h = refl
drop_cr_lacking (c ∷ s) h = ground (arith, drop_cr_lacking s h.1)
