-- ===== src/Scan/Seen.antt =====
-- The map of addresses that a scan fills, as one walk over the addresses it meets.
use mathlib.Core.List.{Memᴰ, Nodup, Nodup-cons, not-mem-nil}
use mathlib.Core.HLevel.{⊥_prop}
use mathlib.Core.Logic.{∥∥₁_elim}
use mathlib.Core.List.Memᴰ
use zts_airdrop.Base.{
  ◌≡◌, ◌≢◌, refl, sym, ap, ◌∙◌, ◌⊎◌, inl, inr, true, false, List, [], ◌∷◌, ◌++◌, Bool-cases, ite,
  if◌then◌else◌, append_assoc,
}
use zts_airdrop.Scan.{Tally, note, add, add_all, take_blocks, take_momentums}
use zts_airdrop.Zenon.{Zenon, same_address}

pub concat : {A : Type 0} → List (List A) → List A
concat [] = []
concat (l ∷ rest) = l ++ concat rest

concat-append : {A : Type 0} (l r : List (List A)) → concat (l ++ r) ≡ concat l ++ concat r
unfolding concat
concat-append [] r = refl
concat-append (x ∷ l) r =
    ap (λ k. x ++ k) (concat-append l r) ∙ sym (append_assoc x (concat l) (concat r))

module _ (Z : Zenon) where
  pub same_address-cases :
      (a b : Z.Address)
      → ((same_address Z a b ≡ true) × (a ≡ b)) ⊎ ((same_address Z a b ≡ false) × (a ≢ b))
  same_address-cases a b = decided (Z.address_discrete a b)
    where
      decided :
          (d : Dec (a ≡ b))
          → ((ite d true false ≡ true) × (a ≡ b)) ⊎ ((ite d true false ≡ false) × (a ≢ b))
      decided (yes e) = inl (refl, e)
      decided (no n) = inr (refl, n)

  -- an address that a scan keeps: not the zero address and not a contract's
  abbrev pub IsUser : Z.Address → Type 0
  IsUser a = (same_address Z a Z.zero_address ≡ false) × (Z.is_embedded a ≡ false)

  pub note-self : (a : Z.Address) (l : List Z.Address) → Memᴰ a (note Z a l)
  unfolding note
  note-self a [] = Memᴰ.head refl
  note-self a (b ∷ l) = elim (same_address-cases a b) [
    | inl (t, e) ↦ rw t (Memᴰ.head e)
    | inr (t, n) ↦ rw t (Memᴰ.tail (note-self a l))
  ]

  pub note-keeps :
      (a : Z.Address) (l : List Z.Address) {x : Z.Address} → Memᴰ x l → Memᴰ x (note Z a l)
  unfolding note
  note-keeps a [] m = elim m [ ]
  note-keeps a (b ∷ l) {x} (Memᴰ.head e) = elim (same_address-cases a b) [
    | inl (t, _) ↦ rw t (Memᴰ.head e)
    | inr (t, _) ↦ rw t (Memᴰ.head e)
  ]
  note-keeps a (b ∷ l) {x} (Memᴰ.tail m) = elim (same_address-cases a b) [
    | inl (t, _) ↦ rw t (Memᴰ.tail m)
    | inr (t, _) ↦ rw t (Memᴰ.tail (note-keeps a l m))
  ]

  pub note_sound :
      (a : Z.Address) (l : List Z.Address) {x : Z.Address}
      → Memᴰ x (note Z a l)
      → (x ≡ a) ⊎ Memᴰ x l
  unfolding note
  note_sound a [] (Memᴰ.head e) = inl e
  note_sound a [] (Memᴰ.tail m) = inr m
  note_sound a (b ∷ l) {x} m = elim (same_address-cases a b) [
    | inl (t, _) ↦ inr (rw t at m)
    | inr (t, _) ↦ elim (Memᴰ.cases_cons (rw t at m)) [
      | inl e ↦ inr (Memᴰ.head e)
      | inr later ↦ elim (note_sound a l later) [ inl e ↦ inl e | inr old ↦ inr (Memᴰ.tail old) ]
    ]
  ]

  pub note-Nodup : (a : Z.Address) (l : List Z.Address) → Nodup l → Nodup (note Z a l)
  unfolding note
  note-Nodup a [] h = Nodup-cons.1 (not-mem-nil, h)
  note-Nodup a (b ∷ l) h = elim (same_address-cases a b) [
    | inl (t, _) ↦ rw t h
    | inr (t, n) ↦
        let (fresh, tail) = Nodup-cons.0 h in
        rw t (
          Nodup-cons.1 (
            λ m.
                ∥∥₁_elim m ⊥_prop
                  (λ d. elim (note_sound a l d) [ inl e ↦ n (sym e) | inr old ↦ fresh ∣ old ∣₁ ]),
            note-Nodup a l tail,
          ))
  ]

  -- what `add` does to the addresses seen
  unfoldable pub collect : List Z.Address → List Z.Address → List Z.Address
  collect [] l = l
  collect (a ∷ rest) l =
      let noted = note Z a l in
      collect rest
        (if same_address Z a Z.zero_address then l else if Z.is_embedded a then l else noted)

  add-seen :
      (a : Z.Address) (t : Tally Z)
      → (add Z a t).seen ≡ (
          if same_address Z a Z.zero_address
          then t.seen
          else if Z.is_embedded a
          then t.seen
          else note Z a t.seen)
  unfolding add
  add-seen a t = elim (Bool-cases (same_address Z a Z.zero_address)) [
    | inl e ↦ rw e refl
    | inr e ↦ elim (Bool-cases (Z.is_embedded a)) [
      | inl f ↦ rw (e, f) refl
      | inr f ↦ rw (e, f) refl
    ]
  ]

  add_all-seen : (l : List Z.Address) (t : Tally Z) → (add_all Z l t).seen ≡ collect l t.seen
  unfolding add_all collect add
  add_all-seen [] t = refl
  add_all-seen (a ∷ rest) t = add_all-seen rest (add Z a t) ∙ ap (collect rest) (add-seen a t)

  collect-append : (l r s : List Z.Address) → collect (l ++ r) s ≡ collect r (collect l s)
  unfolding collect
  collect-append [] r s = refl
  collect-append (a ∷ l) r s = collect-append l r _

  take_blocks-seen :
      (l : List (List Z.Address)) (t : Tally Z)
      → (take_blocks Z l t).seen ≡ collect (concat l) t.seen
  unfolding take_blocks concat collect
  take_blocks-seen [] t = refl
  take_blocks-seen (b ∷ rest) t =
      take_blocks-seen rest _
      ∙ ap (collect (concat rest)) (add_all-seen b _)
      ∙ sym (collect-append b (concat rest) t.seen)

  pub take_momentums-seen :
      (l : List (List (List Z.Address))) (t : Tally Z)
      → (take_momentums Z l t).seen ≡ collect (concat (concat l)) t.seen
  unfolding take_momentums concat collect
  take_momentums-seen [] t = refl
  take_momentums-seen (m ∷ rest) t =
      take_momentums-seen rest _
      ∙ ap (collect (concat (concat rest))) (take_blocks-seen m _)
      ∙ sym (collect-append (concat m) (concat (concat rest)) t.seen)
      ∙ ap (λ l. collect l t.seen) (sym (concat-append m (concat rest)))
