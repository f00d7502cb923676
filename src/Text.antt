-- ===== src/Text.antt =====
-- The functions of Go's `strings` package that the program calls, over bytes.
pub mod Laws
use zts_airdrop.Base.{
  ℕ, Bool, true, false, ◌&&◌, ◌||◌, List, [], ◌∷◌, ◌++◌, Bytes, leb, ◌==◌, if◌then◌else◌, is_empty,
}

-- `unicode.IsSpace` on ASCII
unfoldable pub is_space : ℕ → Bool
is_space c = c == b' ' || (leb 9 c && leb c 13)

unfoldable pub trim_left : (ℕ → Bool) → Bytes → Bytes
trim_left p [] = []
trim_left p (c ∷ s) = if p c then trim_left p s else c ∷ s

-- puts a byte before what is left of the text behind it
unfoldable pub keep : (ℕ → Bool) → ℕ → Bytes → Bytes
keep p c s = if p c && is_empty s then [] else c ∷ s

unfoldable pub trim_right : (ℕ → Bool) → Bytes → Bytes
trim_right p [] = []
trim_right p (c ∷ s) = keep p c (trim_right p s)

-- `strings.TrimSpace`
unfoldable pub trim_space : Bytes → Bytes
unfolding is_space trim_left trim_right keep
trim_space s = trim_right is_space (trim_left is_space s)

-- `strings.Trim(s, cutset)` at a cutset of one byte
unfoldable pub trim_byte : ℕ → Bytes → Bytes
unfolding trim_left trim_right keep
trim_byte k s = trim_right (λ c. c == k) (trim_left (λ c. c == k) s)

-- `strings.ReplaceAll(s, k, "")`
unfoldable pub remove : ℕ → Bytes → Bytes
remove k [] = []
remove k (c ∷ s) = let rest = remove k s in if c == k then rest else c ∷ rest

-- `strings.HasPrefix`
unfoldable pub has_prefix : Bytes → Bytes → Bool
has_prefix [] s = true
has_prefix (p ∷ ps) [] = false
has_prefix (p ∷ ps) (c ∷ s) = c == p && has_prefix ps s

-- what `strings.Cut` returns
pub record Parts : Type 0 where
  pub before : Bytes
  pub after : Bytes
  pub found : Bool

-- `strings.Cut` at a separator of one byte
unfoldable pub cut : ℕ → Bytes → Parts
cut k [] = record { before = []; after = []; found = false }
cut k (c ∷ s) =
    let rest = cut k s in
    if c == k
    then record { before = []; after = s; found = true }
    else record { before = c ∷ rest.before; after = rest.after; found = rest.found }

-- `strings.Join` with a separator of one byte
unfoldable pub join : ℕ → List Bytes → Bytes
join k [] = []
join k (s ∷ []) = s
join k (s ∷ t ∷ ts) = s ++ (k ∷ join k (t ∷ ts))

-- `==` on strings
unfoldable pub same_text : Bytes → Bytes → Bool
same_text [] [] = true
same_text [] (c ∷ t) = false
same_text (b ∷ s) [] = false
same_text (b ∷ s) (c ∷ t) = let rest = same_text s t in if b == c then rest else false

-- a byte before the first text of a list
unfoldable pub extend : ℕ → List Bytes → List Bytes
extend c [] = (c ∷ []) ∷ []
extend c (w ∷ ws) = (c ∷ w) ∷ ws

-- `strings.Split` at a separator of one byte
unfoldable pub split : ℕ → Bytes → List Bytes
unfolding extend
split k [] = [] ∷ []
split k (c ∷ s) = let rest = split k s in if c == k then [] ∷ rest else extend c rest

-- the text begins inside a word
unfoldable pub in_word : Bytes → Bool
unfolding is_space
in_word [] = false
in_word (c ∷ s) = if is_space c then false else true

-- `strings.Fields`
unfoldable pub fields : Bytes → List Bytes
unfolding in_word extend is_space
fields [] = []
fields (c ∷ s) =
    let rest = fields s in
    if is_space c then rest else if in_word s then extend c rest else (c ∷ []) ∷ rest
