-- ===== src/Airdrop/Resume.antt =====
-- The map that recorded payments make, and whom a later run over a map leaves alone.
use mathlib.Core.List.{Memᴰ, Sublistᴰ}
use mathlib.Core.List.Memᴰ
use zts_airdrop.Airdrop.Trace.{unpaid}
use zts_airdrop.Journal.ReadBack.{find-assign, find-assign_other}
use zts_airdrop.Base.{
  map, ap, ◌≡◌, ◌∙◌, inl, inr, List, [], ◌∷◌, none, some, Bytes, arith, Option-cases,
}
use zts_airdrop.Journal.{PaidMap, find, assign}
use zts_airdrop.Zenon.{Zenon}

sublist-mem : {A : Type 0} {l r : List A} {x : A} → Sublistᴰ l r → Memᴰ x l → Memᴰ x r
sublist-mem Sublistᴰ.slnil m = elim m [ ]
sublist-mem (Sublistᴰ.cons s) m = Memᴰ.tail (sublist-mem s m)
sublist-mem (Sublistᴰ.cons-cons e s) (Memᴰ.head d) = Memᴰ.head (d ∙ e)
sublist-mem (Sublistᴰ.cons-cons e s) (Memᴰ.tail m) = Memᴰ.tail (sublist-mem s m)

module _ (Z : Zenon) where
  -- what `Paid` makes of payments, one line after another
  unfoldable pub assign_all : List (Z.Address × Z.Hash) → PaidMap Z → PaidMap Z
  assign_all [] m = m
  assign_all ((a, h) ∷ rest) m = assign_all rest (assign Z a (Z.hash_string h) m)

  assign_all-keeps :
      (l : List (Z.Address × Z.Hash)) (m : PaidMap Z) (x : Z.Address) {g : Bytes}
      → find Z x m ≡ some g
      → (k : Bytes) × (find Z x (assign_all l m) ≡ some k)
  unfolding assign_all
  assign_all-keeps [] m x {g} e = (g, e)
  assign_all-keeps ((a, h) ∷ rest) m x e =
      let (k, f) = find-assign_other Z a x (Z.hash_string h) m e in
      assign_all-keeps rest (assign Z a (Z.hash_string h) m) x f

  -- every payment of the list is found
  pub find-assign_all :
      (l : List (Z.Address × Z.Hash)) (m : PaidMap Z) {x : Z.Address}
      → Memᴰ x (map (λ (p : Z.Address × Z.Hash). p.0) l)
      → (k : Bytes) × (find Z x (assign_all l m) ≡ some k)
  unfolding assign_all
  find-assign_all [] m d = absurd (Memᴰ.not-nil d)
  find-assign_all ((a, h) ∷ rest) m {x} (Memᴰ.head e) =
      let here = find-assign Z a (Z.hash_string h) m in
      assign_all-keeps rest (assign Z a (Z.hash_string h) m) x
        (ap (λ y. find Z y (assign Z a (Z.hash_string h) m)) e ∙ here)
  find-assign_all ((a, h) ∷ rest) m (Memᴰ.tail d) =
      find-assign_all rest (assign Z a (Z.hash_string h) m) d

  -- the unpaid are not in the map
  unpaid_sound :
      (m : PaidMap Z) (l : List Z.Address) {x : Z.Address}
      → Memᴰ x (unpaid Z m l)
      → find Z x m ≡ none
  unfolding unpaid
  unpaid_sound m [] d = absurd (Memᴰ.not-nil d)
  unpaid_sound m (a ∷ rest) {x} d = elim (Option-cases (find Z a m)) [
    | inr (h, f) ↦ unpaid_sound m rest (rw (f, unpaid) at d)
    | inl f ↦ elim (Memᴰ.cases_cons (rw (f, unpaid) at d)) [
      | inl e ↦ rw e f
      | inr later ↦ unpaid_sound m rest later
    ]
  ]

  -- whoever a map names is not among the unpaid that a run over it tries
  pub none_twice :
      (m : PaidMap Z) (candidates : List Z.Address) {tried : List Z.Address}
      → Sublistᴰ tried (unpaid Z m candidates)
      → (x : Z.Address) (g : Bytes) → find Z x m ≡ some g
      → ¬ Memᴰ x tried
  none_twice m candidates s x g found t =
      let missing = unpaid_sound m candidates (sublist-mem s t) in ground arith
