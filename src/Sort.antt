-- ===== src/Sort.antt =====
-- `sort.Strings` and `sort.Slice` by text, as insertion sort on a key.
use mathlib.Core.List.Permᴰ
use mathlib.Core.List.{Permᴰ}
use zts_airdrop.Base.{
  ◌≡◌, refl, sym, ◌∙◌, Bool, true, false, List, [], ◌∷◌, Bytes, arith, ltb, if◌then◌else◌,
  Bool-cases, inl, inr, ◌⊎◌, ◌≢◌,
}

-- `<=` on strings
pub le_text : Bytes → Bytes → Bool
le_text [] t = true
le_text (b ∷ s) [] = false
le_text (b ∷ s) (c ∷ t) =
    let rest = le_text s t in if ltb b c then true else if ltb c b then false else rest

pub le_text_total : (s t : Bytes) → le_text s t ≡ false → le_text t s ≡ true
unfolding le_text
le_text_total [] t h = ground arith
le_text_total (b ∷ s) [] h = refl
le_text_total (b ∷ s) (c ∷ t) h = ground (arith, le_text_total s t)

pub le_text_antisymm : (s t : Bytes) → le_text s t ≡ true → le_text t s ≡ true → s ≡ t
unfolding le_text
le_text_antisymm [] [] h k = refl
le_text_antisymm [] (c ∷ t) h k = ground arith
le_text_antisymm (b ∷ s) [] h k = ground arith
le_text_antisymm (b ∷ s) (c ∷ t) h k = ground (arith, le_text_antisymm s t)

pub le_text_trans : (s t u : Bytes) → le_text s t ≡ true → le_text t u ≡ true → le_text s u ≡ true
unfolding le_text
le_text_trans [] t u h k = refl
le_text_trans (b ∷ s) [] u h k = ground arith
le_text_trans (b ∷ s) (c ∷ t) [] h k = ground arith
le_text_trans (b ∷ s) (c ∷ t) (d ∷ u) h k = ground (arith, le_text_trans s t u)

pub le_text_refl : (s : Bytes) → le_text s s ≡ true
unfolding le_text
le_text_refl [] = refl
le_text_refl (c ∷ s) = ground (arith, le_text_refl s)

-- two texts are equal or they differ
pub text_cases : (s t : Bytes) → (s ≡ t) ⊎ (s ≢ t)
text_cases s t = elim (Bool-cases (le_text s t)) [
  | inl h ↦ elim (Bool-cases (le_text t s)) [
    | inl k ↦ inl (le_text_antisymm s t h k)
    | inr k ↦ inr (λ e. cc (le_text_refl t, rw e at k))
  ]
  | inr h ↦ inr (λ e. cc (le_text_refl t, rw e at h))
]

module _ {ℓ} {A : Type ℓ} (key : A → Bytes) where
  unfoldable pub insert_by : A → List A → List A
  insert_by a [] = a ∷ []
  insert_by a (b ∷ l) =
      let further = insert_by a l in if le_text (key a) (key b) then a ∷ b ∷ l else b ∷ further

  unfoldable pub sort_by : List A → List A
  unfolding insert_by
  sort_by [] = []
  sort_by (a ∷ l) = insert_by a (sort_by l)

  insert_by-perm : (a : A) (l : List A) → Permᴰ (insert_by a l) (a ∷ l)
  unfolding insert_by
  insert_by-perm a [] = Permᴰ.refl (a ∷ [])
  insert_by-perm a (b ∷ l) = elim (Bool-cases (le_text (key a) (key b))) [
    | inl e ↦ rw e (Permᴰ.refl (a ∷ b ∷ l))
    | inr e ↦ rw e (Permᴰ.trans (Permᴰ.cons refl (insert_by-perm a l)) (Permᴰ.swap refl refl))
  ]

  -- Sorting permutes.
  pub sort_by-perm : (l : List A) → Permᴰ (sort_by l) l
  unfolding sort_by
  sort_by-perm [] = Permᴰ.nil
  sort_by-perm (a ∷ l) =
      Permᴰ.trans (insert_by-perm a (sort_by l)) (Permᴰ.cons refl (sort_by-perm l))

  -- each item's key is at most that of the next
  abbrev pub IsAscending : List A → Type 0
  IsAscending [] = Unit
  IsAscending (a ∷ []) = Unit
  IsAscending (a ∷ b ∷ l) = (le_text (key a) (key b) ≡ true) × IsAscending (b ∷ l)

  insert_by-IsAscending : (a : A) (l : List A) → IsAscending l → IsAscending (insert_by a l)
  unfolding insert_by
  insert_by-IsAscending a [] h = tt
  insert_by-IsAscending a (b ∷ []) h = elim (Bool-cases (le_text (key a) (key b))) [
    | inl e ↦ rw e (e, tt)
    | inr e ↦ rw e (le_text_total (key a) (key b) e, tt)
  ]
  insert_by-IsAscending a (b ∷ c ∷ l) h =
      let further = insert_by-IsAscending a (c ∷ l) h.1 in
      elim (Bool-cases (le_text (key a) (key b))) [
        | inl e ↦ rw e (e, h)
        | inr e ↦ elim (Bool-cases (le_text (key a) (key c))) [
          | inl f ↦ rw (e, f) (le_text_total (key a) (key b) e, (f, h.1))
          | inr f ↦ rw (e, f) (h.0, rw f at further)
        ]
      ]

  -- Sorting sorts.
  pub sort_by-IsAscending : (l : List A) → IsAscending (sort_by l)
  unfolding sort_by
  sort_by-IsAscending [] = tt
  sort_by-IsAscending (a ∷ l) = insert_by-IsAscending a (sort_by l) (sort_by-IsAscending l)

  module _ (injective : (a b : A) → key a ≡ key b → a ≡ b) where
    insert_by_below :
        (a b : A) (l : List A)
        → le_text (key a) (key b) ≡ true
        → le_text (key b) (key a) ≡ false
        → insert_by a (insert_by b l) ≡ insert_by b (insert_by a l)
    unfolding insert_by
    insert_by_below a b [] h k = ground arith
    insert_by_below a b (c ∷ l) h k =
        let past = insert_by_below a b l h k in
        let down = le_text_trans (key a) (key b) (key c) h in ground (arith, past, down)

    insert_by_twice :
        (a b : A) (l : List A)
        → le_text (key a) (key b) ≡ true
        → insert_by a (insert_by b l) ≡ insert_by b (insert_by a l)
    insert_by_twice a b l h = elim (Bool-cases (le_text (key b) (key a))) [
      | inl e ↦ rw (injective a b (le_text_antisymm (key a) (key b) h e))
      | inr e ↦ insert_by_below a b l h e
    ]

    insert_by_comm :
        (a b : A) (l : List A) → insert_by a (insert_by b l) ≡ insert_by b (insert_by a l)
    insert_by_comm a b l = elim (Bool-cases (le_text (key a) (key b))) [
      | inl e ↦ insert_by_twice a b l e
      | inr e ↦ sym (insert_by_twice b a l (le_text_total (key a) (key b) e))
    ]

    -- Two lists with the same items, in any order, sort to the same list.
    pub sort_by_of_perm : {l r : List A} → Permᴰ l r → sort_by l ≡ sort_by r
    unfolding sort_by
    sort_by_of_perm Permᴰ.nil = refl
    sort_by_of_perm (Permᴰ.cons e p) = rw (e, sort_by_of_perm p)
    sort_by_of_perm (Permᴰ.swap {a} {b} {l = l} e f) =
        rw (← e, ← f) (insert_by_comm a b (sort_by l))
    sort_by_of_perm (Permᴰ.trans p q) = sort_by_of_perm p ∙ sort_by_of_perm q
