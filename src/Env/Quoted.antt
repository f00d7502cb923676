-- ===== src/Env/Quoted.antt =====
-- A quoted value is read as it is written.
use zts_airdrop.Base.{
  ℕ, ◌-◌, if◌then◌else◌, ◌≡◌, refl, sym, ap, ◌∙◌, Bool, true, false, ◌&&◌, [], ◌∷◌, ◌++◌,
  append_assoc, Bytes, codes, All, arith, ==_refl, length, length-append, take, is_empty,
}
use zts_airdrop.Env.{ends_with, quoted_by, setting_value, without_export, setting, parse_line}
use zts_airdrop.Text.{is_space, trim_left, trim_right, keep, trim_space, has_prefix}
use zts_airdrop.Text.Laws.{Lacks, cut_at, trim_space_of_fail}

-- a variable's name: not empty, with no white space, no equals sign and no # in front
pub record IsName (key : Bytes) : Type 0 where
  pub full : is_empty key ≡ false
  pub no_space : All (λ c. is_space c ≡ false) key
  pub no_equals : Lacks b'=' key
  pub no_comment : has_prefix (codes "#") key ≡ false

-- `KEY="VALUE"`
abbrev pub quoted_line : Bytes → Bytes → Bytes
quoted_line key value = key ++ (b'=' ∷ b'"' ∷ (value ++ (b'"' ∷ [])))

no_both : {A : Type 0} (b : Bool) (x y : A) → (if b && false then x else y) ≡ y
no_both true x y = refl
no_both false x y = refl

trim_right_closed :
    (s : Bytes) (q : ℕ) → is_space q ≡ false → trim_right is_space (s ++ (q ∷ [])) ≡ s ++ (q ∷ [])
unfolding trim_right keep
trim_right_closed [] q e = rw e refl
trim_right_closed (c ∷ []) q e = rw (trim_right_closed [] q e) (no_both (is_space c) _ _)
trim_right_closed (c ∷ d ∷ s) q e = rw (trim_right_closed (d ∷ s) q e) (no_both (is_space c) _ _)

trim_space_closed :
    (c : ℕ) (s : Bytes) (q : ℕ)
    → is_space c ≡ false
    → is_space q ≡ false
    → trim_space (c ∷ (s ++ (q ∷ []))) ≡ c ∷ (s ++ (q ∷ []))
unfolding trim_space trim_left
trim_space_closed c s q e f = rw e (trim_right_closed (c ∷ s) q f)

ends_with_last : (q : ℕ) (s : Bytes) → ends_with q (s ++ (q ∷ [])) ≡ true
unfolding ends_with
ends_with_last q [] = ==_refl q
ends_with_last q (c ∷ []) = ==_refl q
ends_with_last q (c ∷ d ∷ s) = ends_with_last q (d ∷ s)

take-length : (s t : Bytes) → take (length s) (s ++ t) ≡ s
take-length [] t = refl
take-length (c ∷ s) t = ap (◌∷◌ c) (take-length s t)

setting_value-quoted : (value : Bytes) → setting_value (b'"' ∷ (value ++ (b'"' ∷ []))) ≡ value
unfolding setting_value quoted_by
setting_value-quoted value =
    let size : length (b'"' ∷ (value ++ (b'"' ∷ []))) - 2 ≡ length value =
      omega (arith, length-append {0} value (b'"' ∷ [])) in
    rw (ends_with_last b'"' value, size) (take-length value (b'"' ∷ []))

-- a prefix that ends in a blank is not one of a text whose name has none
no_prefix :
    (p key rest : Bytes)
    → Lacks b'=' p
    → All (λ c. is_space c ≡ false) key
    → has_prefix (p ++ (b' ' ∷ [])) (key ++ (b'=' ∷ rest)) ≡ false
unfolding has_prefix is_space
no_prefix [] [] rest h k = refl
no_prefix [] (c ∷ key) rest h (e, k) = ground arith
no_prefix (a ∷ p) [] rest (n, h) k = ground arith
no_prefix (a ∷ p) (c ∷ key) rest (n, h) (e, k) = ground (arith, no_prefix p key rest h k)

name_text :
    (key value : Bytes) → IsName key → trim_space (quoted_line key value) ≡ quoted_line key value
unfolding is_space
name_text [] value h = absurd (ground (arith, h.full))
name_text (c ∷ key) value h =
    let assoc = append_assoc key (b'=' ∷ b'"' ∷ value) (b'"' ∷ []) in
    ap trim_space (ap (◌∷◌ c) (sym assoc))
    ∙ trim_space_closed c (key ++ (b'=' ∷ b'"' ∷ value)) b'"' h.no_space.0 refl
    ∙ ap (◌∷◌ c) assoc

name_clear :
    (key value : Bytes)
    → IsName key
    → (is_empty (quoted_line key value) ≡ false)
      × (has_prefix (codes "#") (quoted_line key value) ≡ false)
unfolding has_prefix
name_clear [] value h = absurd (ground (arith, h.full))
name_clear (c ∷ key) value h = (refl, h.no_comment)

without_export-name :
    (key value : Bytes)
    → IsName key
    → without_export (quoted_line key value) ≡ quoted_line key value
unfolding without_export
without_export-name key value h =
    let plain =
      no_prefix (codes "export") key (b'"' ∷ (value ++ (b'"' ∷ [])))
        (
          (λ e. omega arith),
          (
            (λ e. omega arith),
            (
              (λ e. omega arith),
              ((λ e. omega arith), ((λ e. omega arith), ((λ e. omega arith), tt))),
            ),
          ),
        )
        h.no_space in
    rw (plain, without_export) refl

-- A line of the settings file that writes a value in double quotes, whatever the value is
-- (blanks, # and quotes included), is read as exactly that value under its name, for a name
-- that is not empty and has no white space, no equals sign and no # in front.
pub parse_line-quoted :
    (key value : Bytes) → IsName key → parse_line (quoted_line key value) ≡ setting key value
unfolding parse_line is_space
parse_line-quoted key value h =
    let rest = b'"' ∷ (value ++ (b'"' ∷ [])) in
    let (some_text, uncommented) = name_clear key value h in
    let after = trim_space_closed b'"' value b'"' refl refl in
    rw (name_text key value h) (
      rw (some_text, uncommented, without_export-name key value h)
        (rw (cut_at b'=' key rest h.no_equals)
          (rw (trim_space_of_fail key h.no_space, after, setting_value-quoted value) refl)))
