-- ===== src/Main/Filters.antt =====
-- What the filters leave of the recipients.
use mathlib.Core.List.{Memᴰ}
use mathlib.Core.List.Memᴰ
use zts_airdrop.Base.{
  ok_injective, ◌≡◌, ◌≢◌, sym, ◌∙◌, ◌↔◌, inl, inr, true, false, List, [], ◌∷◌, ℤ, lt_int, Result,
  ok, arith, Bool-cases, Result-cases,
}
use zts_airdrop.Effect.{next_cases}
use zts_airdrop.Main.{without, filter_by_holding}
use zts_airdrop.Rpc.{balance}
use zts_airdrop.Scan.Seen.{same_address-cases}
use zts_airdrop.World.{Host, World}
use zts_airdrop.Zenon.{Zenon}

module _ (Z : Zenon) where
  -- An address is in the list that without returns exactly if it is in the given list and is
  -- not the one to drop.
  pub without_iff :
      (drop : Z.Address) (addrs : List Z.Address) (a : Z.Address)
      → Memᴰ a (without Z drop addrs) ↔ (Memᴰ a addrs × (a ≢ drop))
  unfolding without
  without_iff drop [] a = ((λ m. absurd (Memᴰ.not-nil m)), (λ x. x.0))
  without_iff drop (b ∷ rest) a =
      let (sound, complete) = without_iff drop rest a in
      elim (same_address-cases Z b drop) [
        | inl (t, same) ↦
            rw (t, without)
              (
                (λ m. let (l, n) = sound m in (Memᴰ.tail l, n)),
                (λ x. elim (Memᴰ.cases_cons x.0) [
                  | inl e ↦ absurd (x.1 (e ∙ same))
                  | inr l ↦ complete (l, x.1)
                ]),
              )
        | inr (f, differ) ↦
            rw (f, without)
              (
                (λ m. elim (Memᴰ.cases_cons m) [
                  | inl e ↦ (Memᴰ.head e, (λ x. differ (sym e ∙ x)))
                  | inr later ↦ let (l, n) = sound later in (Memᴰ.tail l, n)
                ]),
                (λ x. elim (Memᴰ.cases_cons x.0) [
                  | inl e ↦ Memᴰ.head e
                  | inr l ↦ Memᴰ.tail (complete (l, x.1))
                ]),
              )
      ]

  module _ (H : Host Z) (zts : Z.Zts) (floor : ℤ) where
    -- the node reported a balance of the address that is not below the floor
    pub record IsHolder (a : Z.Address) : Type 0 where
      pub asked : World Z H
      pub held : ℤ
      pub reported : (balance Z H a zts asked).0 ≡ ok held
      pub enough : lt_int held floor ≡ false

    -- and one that is
    pub record IsPoor (a : Z.Address) : Type 0 where
      pub asked : World Z H
      pub held : ℤ
      pub reported : (balance Z H a zts asked).0 ≡ ok held
      pub short : lt_int held floor ≡ true

    -- a list split into the addresses kept and the others, in its order
    pub data Sifted : List Z.Address → List Z.Address → Type 0 where
      empty : Sifted [] []
      kept :
          (a : Z.Address) {addrs left : List Z.Address}
          → IsHolder a
          → Sifted addrs left
          → Sifted (a ∷ addrs) (a ∷ left)
      dropped :
          (a : Z.Address) {addrs left : List Z.Address}
          → IsPoor a
          → Sifted addrs left
          → Sifted (a ∷ addrs) left

    Sifts : List Z.Address → Result (List Z.Address) × World Z H → Type 0
    Sifts addrs q = (left : List Z.Address) → q.0 ≡ ok left → Sifted addrs left

    sift :
        (addrs : List Z.Address) (w : World Z H)
        → Sifts addrs (filter_by_holding Z H zts floor addrs w)
    unfolding filter_by_holding Sifts
    sift [] w = λ left e. rw (sym (ok_injective e)) empty
    sift (a ∷ rest) w =
        let asked = record w { net = (H.is_done w.net).1 } in
        elim (Bool-cases (H.is_done w.net).0) [
          | inl ended ↦ rw (ended, filter_by_holding) (λ left e. absurd (ground arith))
          | inr going ↦ elim (Result-cases (balance Z H a zts asked).0) [
            | inr (x, failed) ↦
                rw (going, failed, filter_by_holding) (λ left e. absurd (ground arith))
            | inl (held, told) ↦
                rw (going, told, filter_by_holding)
                  (next_cases (Sifts (a ∷ rest)) _
                    (filter_by_holding Z H zts floor rest (balance Z H a zts asked).1)
                    (λ x failed left e. absurd (ground arith))
                    (λ others found left e. elim (Bool-cases (lt_int held floor)) [
                      | inl short ↦
                          dropped a
                            (record { asked = asked; held = held; reported = told; short = short })
                            (sift rest _ left (found ∙ (rw short at e)))
                      | inr enough ↦ rw (sym (ok_injective (rw enough at e))) (
                          kept a
                            (record {
                              asked = asked;
                              held = held;
                              reported = told;
                              enough = enough;
                            })
                            (sift rest _ others found))
                    ]))
          ]
        ]

    -- If filterByHolding returns a list, then that list is what is left of the addresses, in
    -- their order, when those are dropped for which the node reported a balance below the
    -- floor, and for each of the others the node reported one that is not below it.
    pub filter_by_holding-Sifted :
        (addrs left : List Z.Address) (w : World Z H)
        → (filter_by_holding Z H zts floor addrs w).0 ≡ ok left
        → Sifted addrs left
    unfolding Sifts
    filter_by_holding-Sifted addrs left w e = sift addrs w left e
