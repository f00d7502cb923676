-- ===== src/ScanLog/Digest.antt =====
-- What a digest says of the lists that it is taken of.
use mathlib.Core.List.Permᴰ
use mathlib.Core.List.{Permᴰ, cons-ne-nil}
use zts_airdrop.Base.{
  ◌≡◌, ◌≢◌, refl, sym, ap, ◌∙◌, ◌⊎◌, inl, inr, List, [], ◌∷◌, ◌++◌, map, Bytes, ok, err, All,
}
use zts_airdrop.ScanLog.{lines_of, digest_text, digest_strings, address_strings, address_digest}
use zts_airdrop.Sort.{sort_by, sort_by-perm, sort_by_of_perm, text_cases}
use zts_airdrop.Text.{cut}
use zts_airdrop.Text.Laws.{Lacks, cut_at}
use zts_airdrop.Zenon.{Zenon, IsLawful}

map-perm : {A B : Type 0} (f : A → B) {l r : List A} → Permᴰ l r → Permᴰ (map f l) (map f r)
map-perm f Permᴰ.nil = Permᴰ.nil
map-perm f (Permᴰ.cons e p) = Permᴰ.cons (ap f e) (map-perm f p)
map-perm f (Permᴰ.swap e d) = Permᴰ.swap (ap f e) (ap f d)
map-perm f (Permᴰ.trans p q) = Permᴰ.trans (map-perm f p) (map-perm f q)

map_back :
    {A B : Type 0} (f : A → B) (g : B → A)
    → ((a : A) → g (f a) ≡ a)
    → (l : List A) → map g (map f l) ≡ l
map_back f g h [] = refl
map_back f g h (a ∷ l) = rw (h a, map_back f g h l)

AreLines-perm : {l r : List Bytes} → Permᴰ l r → All (Lacks 10) l → All (Lacks 10) r
AreLines-perm Permᴰ.nil h = h
AreLines-perm (Permᴰ.cons e p) h = (rw e at h.0, AreLines-perm p h.1)
AreLines-perm (Permᴰ.swap e d) h = (rw d at h.1.0, (rw e at h.0, h.1.1))
AreLines-perm (Permᴰ.trans p q) h = AreLines-perm q (AreLines-perm p h)

lines_of-ne-nil : (s : Bytes) (rest : List Bytes) → lines_of (s ∷ rest) ≢ []
unfolding lines_of
lines_of-ne-nil [] rest e = cons-ne-nil 10 (lines_of rest) e
lines_of-ne-nil (c ∷ s) rest e = cons-ne-nil c (s ++ (10 ∷ lines_of rest)) e

-- different lists of lines are different texts
lines_of-injective :
    (l r : List Bytes) → All (Lacks 10) l → All (Lacks 10) r → lines_of l ≡ lines_of r → l ≡ r
unfolding lines_of
lines_of-injective [] [] h k e = refl
lines_of-injective [] (t ∷ r) h k e = absurd (lines_of-ne-nil t r (sym e))
lines_of-injective (s ∷ l) [] h k e = absurd (lines_of-ne-nil s l e)
lines_of-injective (s ∷ l) (t ∷ r) h k e =
    let at_s = cut_at 10 s (lines_of l) h.0 in
    let at_t = cut_at 10 t (lines_of r) k.0 in
    let heads : s ≡ t = ap (λ p. p.before) (sym at_s ∙ ap (cut 10) e ∙ at_t) in
    let tails : lines_of l ≡ lines_of r = ap (λ p. p.after) (sym at_s ∙ ap (cut 10) e ∙ at_t) in
    rw (heads, lines_of-injective l r h.1 k.1 tails)

module _ (Z : Zenon) where
  -- two texts with one hash
  abbrev pub IsCollision : Bytes → Bytes → Type 0
  IsCollision x y = (x ≢ y) × (Z.sha256_hex x ≡ Z.sha256_hex y)

  -- Lists with the same addresses, each as often, have one AddressDigest, whatever their
  -- order.
  pub address_digest_of_perm :
      {a b : List Z.Address} → Permᴰ a b → address_digest Z a ≡ address_digest Z b
  unfolding address_digest digest_strings digest_text address_strings
  address_digest_of_perm p =
      ap (λ l. Z.sha256_hex (lines_of l))
        (sort_by_of_perm (λ s. s) (λ s t e. e) (map-perm Z.address_string p))

  module _ (lawful : IsLawful Z) where
    address_of : Bytes → Z.Address
    address_of s = elim (Z.parse_address s) [ ok a ↦ a | err e ↦ Z.zero_address ]

    address_of-string : (a : Z.Address) → address_of (Z.address_string a) ≡ a
    unfolding address_of
    address_of-string a = rw (address_of, lawful.parse-address_string a)

    are_lines : (l : List Z.Address) → All (Lacks 10) (map Z.address_string l)
    are_lines [] = tt
    are_lines (a ∷ l) = (lawful.address_string_line a, are_lines l)

    sorted_lines : (l : List Z.Address) → All (Lacks 10) (sort_by (λ s. s) (map Z.address_string l))
    sorted_lines l =
        AreLines-perm (Permᴰ.symm (sort_by-perm (λ s. s) (map Z.address_string l))) (are_lines l)

    perm_of_text :
        (a b : List Z.Address)
        → digest_text (map Z.address_string a) ≡ digest_text (map Z.address_string b)
        → Permᴰ a b
    unfolding digest_text
    perm_of_text a b e =
        let sorted = lines_of-injective _ _ (sorted_lines a) (sorted_lines b) e in
        let strings : Permᴰ (map Z.address_string a) (map Z.address_string b) =
          Permᴰ.trans (Permᴰ.symm (sort_by-perm (λ s. s) (map Z.address_string a)))
            (rw sorted (sort_by-perm (λ s. s) (map Z.address_string b))) in
        rw
          (
            map_back Z.address_string address_of address_of-string a,
            map_back Z.address_string address_of address_of-string b,
          )
          at (map-perm address_of strings)

    -- Two lists of addresses with one AddressDigest hold the same addresses, each as often, or
    -- else the two texts that were hashed are a SHA-256 collision. It assumes the documented
    -- behaviour of address texts, IsLawful.
    pub perm_of_address_digest :
        (a b : List Z.Address)
        → address_digest Z a ≡ address_digest Z b
        → Permᴰ a b
          ⊎ IsCollision (digest_text (address_strings Z a)) (digest_text (address_strings Z b))
    unfolding address_digest digest_strings address_strings
    perm_of_address_digest a b e =
        elim (text_cases (digest_text (map Z.address_string a))
          (digest_text (map Z.address_string b))) [
            | inl same ↦ inl (perm_of_text a b same)
            | inr differ ↦ inr (differ, e)
          ]
