-- ===== src/Wallet/Phrase.antt =====
-- The words of a phrase survive being written with one blank between them.
use zts_airdrop.Base.{
  ℕ, append-nil, ◌||◌, codes, ◌≡◌, ◌≢◌, ◌==◌, ==_iff, true, refl, ◌∙◌, ap, inl, inr, false, List,
  [], ◌∷◌, ◌++◌, Bool, Bytes, arith, All, All-append, Bool-cases, is_empty,
}
use zts_airdrop.Text.{
  is_space, in_word, extend, fields, join, split, trim_space, trim_left, trim_right, keep,
  has_prefix,
}
use zts_airdrop.Wallet.{normalised, phrase_words, read_mnemonic}

-- a word: not empty, and no white space in it
abbrev pub IsWord : Bytes → Type 0
IsWord w = (is_empty w ≡ false) × All (λ c. is_space c ≡ false) w

-- a word, and whatever starts with white space behind it
fields_word :
    (w rest : Bytes) → IsWord w → in_word rest ≡ false → fields (w ++ rest) ≡ w ∷ fields rest
unfolding fields in_word extend
fields_word [] rest (h, a) e = absurd (ground arith)
fields_word (c ∷ []) rest (h, (a, b)) e = rw (a, e) refl
fields_word (c ∷ d ∷ w) rest (h, (a, (b, l))) e =
    rw (a, b) (ap (extend c) (rw b at (fields_word (d ∷ w) rest (refl, (b, l)) e)))

fields-join : (ws : List Bytes) → All IsWord ws → fields (join b' ' ws) ≡ ws
unfolding fields in_word join
fields-join [] h = refl
fields-join (w ∷ []) (h, l) = rw append-nil at (fields_word w [] h refl)
fields-join (w ∷ v ∷ ws) (h, l) =
    fields_word w (b' ' ∷ join b' ' (v ∷ ws)) h refl ∙ ap (◌∷◌ w) (fields-join (v ∷ ws) l)

extend-IsWord :
    (c : ℕ) (ws : List Bytes) → is_space c ≡ false → All IsWord ws → All IsWord (extend c ws)
unfolding extend
extend-IsWord c [] e h = ((refl, (e, tt)), tt)
extend-IsWord c (w ∷ ws) e ((f, a), l) = ((refl, (e, a)), l)

fields-IsWord : (s : Bytes) → All IsWord (fields s)
unfolding fields
fields-IsWord [] = tt
fields-IsWord (c ∷ s) = elim (Bool-cases (is_space c)) [
  | inl e ↦ rw (e, fields) (fields-IsWord s)
  | inr e ↦ elim (Bool-cases (in_word s)) [
    | inl f ↦ rw (e, f, fields) (extend-IsWord c (fields s) e (fields-IsWord s))
    | inr f ↦ rw (e, f, fields) ((refl, (e, tt)), fields-IsWord s)
  ]
]

phrase_words-IsWord : (lines : List Bytes) → All IsWord (phrase_words lines)
unfolding phrase_words
phrase_words-IsWord [] = tt
phrase_words-IsWord (line ∷ rest) =
    let text = trim_space line in
    elim (Bool-cases (is_empty text || has_prefix (codes "#") text)) [
      | inl e ↦ rw (e, phrase_words) (phrase_words-IsWord rest)
      | inr e ↦
          rw (e, phrase_words)
            (All-append IsWord (fields text) (phrase_words rest) (fields-IsWord text)
              (phrase_words-IsWord rest))
    ]

-- The words that the lines of a phrase's file say: a blank line and a line whose first byte
-- behind white space is a # say none, and any other line says its own.
pub data Says : List Bytes → List Bytes → Type 0 where
  nothing : Says [] []
  blank :
      {lines words : List Bytes} (line : Bytes)
      → All (λ c. is_space c ≡ true) line
      → Says lines words
      → Says (line ∷ lines) words
  comment :
      {lines words : List Bytes} (pad text : Bytes)
      → All (λ c. is_space c ≡ true) pad
      → Says lines words
      → Says ((pad ++ (b'#' ∷ text)) ∷ lines) words
  worded :
      {lines words : List Bytes} (pad text : Bytes) (c : ℕ)
      → All (λ d. is_space d ≡ true) pad
      → is_space c ≡ false
      → c ≢ b'#'
      → Says lines words
      → Says ((pad ++ (c ∷ text)) ∷ lines) (fields (trim_space (pad ++ (c ∷ text))) ++ words)

-- a line is blank, or some byte that is not white space comes first
data Start : Bytes → Type 0 where
  empty : {line : Bytes} → All (λ c. is_space c ≡ true) line → Start line
  begins :
      (pad text : Bytes) (c : ℕ)
      → All (λ d. is_space d ≡ true) pad
      → is_space c ≡ false
      → Start (pad ++ (c ∷ text))

first_byte : (line : Bytes) → Start line
first_byte [] = empty tt
first_byte (c ∷ line) = elim (Bool-cases (is_space c)) [
  | inr e ↦ begins [] line c tt e
  | inl e ↦ behind c e (first_byte line)
]
  where
    behind : (c : ℕ) {line : Bytes} → is_space c ≡ true → Start line → Start (c ∷ line)
    behind c e (empty h) = empty (e, h)
    behind c e (begins pad text d h f) = begins (c ∷ pad) text d (e, h) f

trim_space-blank : (line : Bytes) → All (λ c. is_space c ≡ true) line → trim_space line ≡ []
unfolding trim_space trim_left trim_right
trim_space-blank [] h = refl
trim_space-blank (c ∷ line) (e, h) = rw e (trim_space-blank line h)

trim_space-begins :
    (pad text : Bytes) (c : ℕ)
    → All (λ d. is_space d ≡ true) pad
    → is_space c ≡ false
    → trim_space (pad ++ (c ∷ text)) ≡ c ∷ trim_right is_space text
unfolding trim_space trim_left trim_right keep
trim_space-begins [] text c h e = rw e (rw e refl)
trim_space-begins (d ∷ pad) text c (f, h) e = rw f (trim_space-begins pad text c h e)

-- the test that `ReadMnemonicFile` makes of a line
abbrev is_skipped : Bytes → Bool
is_skipped line = is_empty (trim_space line) || has_prefix (codes "#") (trim_space line)

phrase_words_skips :
    (line : Bytes) (rest : List Bytes)
    → is_skipped line ≡ true
    → phrase_words (line ∷ rest) ≡ phrase_words rest
unfolding phrase_words
phrase_words_skips line rest e = rw (e, phrase_words) refl

phrase_words_takes :
    (line : Bytes) (rest : List Bytes)
    → is_skipped line ≡ false
    → phrase_words (line ∷ rest) ≡ fields (trim_space line) ++ phrase_words rest
unfolding phrase_words
phrase_words_takes line rest e = rw (e, phrase_words) refl

is_skipped-begins :
    (pad text : Bytes) (c : ℕ)
    → All (λ d. is_space d ≡ true) pad
    → is_space c ≡ false
    → is_skipped (pad ++ (c ∷ text)) ≡ (c == b'#')
unfolding has_prefix
is_skipped-begins pad text c h e = rw (trim_space-begins pad text c h e) (ground arith)

line-Says :
    {line : Bytes} (rest : List Bytes)
    → Start line
    → Says rest (phrase_words rest)
    → Says (line ∷ rest) (phrase_words (line ∷ rest))
line-Says {line} rest (empty h) said =
    let skips : is_skipped line ≡ true = rw (trim_space-blank line h) refl in
    rw (phrase_words_skips line rest skips) (blank line h said)
line-Says rest (begins pad text c h e) said =
    let test = is_skipped-begins pad text c h e in
    elim (Bool-cases (c == b'#')) [
      | inl hash ↦
          rw (phrase_words_skips (pad ++ (c ∷ text)) rest (test ∙ hash), (==_iff c b'#').0 hash)
            (comment pad text h said)
      | inr other ↦
          rw (phrase_words_takes (pad ++ (c ∷ text)) rest (test ∙ other))
            (worded pad text c h e (λ same. absurd (ground (arith, same, other))) said)
    ]

phrase_words-Says : (lines : List Bytes) → Says lines (phrase_words lines)
unfolding phrase_words
phrase_words-Says [] = nothing
phrase_words-Says (line ∷ rest) = line-Says rest (first_byte line) (phrase_words-Says rest)

-- The words of the phrase that ReadMnemonicFile returns are those that the lines of the file
-- say: none for a blank line and for one that begins with a # behind white space, the line's
-- own for any other, in their order; and fromMnemonic's own normalisation leaves that phrase
-- as it is.
pub read_mnemonic-words :
    (raw : Bytes)
    → Says (split 10 raw) (fields (read_mnemonic raw))
      × (normalised (read_mnemonic raw) ≡ read_mnemonic raw)
unfolding read_mnemonic normalised
read_mnemonic-words raw =
    let same = fields-join (phrase_words (split 10 raw)) (phrase_words-IsWord (split 10 raw)) in
    (rw same (phrase_words-Says (split 10 raw)), ap (join b' ') same)
