-- ===== src/Scan/Batches.antt =====
-- A scan in batches is one walk over the range.
use zts_airdrop.Base.{
  ℕ, zero, suc, ◌+◌, ◌-◌, ◌%◌, ◌^◌, ◌≤◌, ◌<◌, ◌≡◌, refl, sym, ap, ◌∙◌, Bool, true, false, List, [],
  ◌∷◌, ◌++◌, Result, ok, arith, ltb, leb, ◌==◌, if◌then◌else◌, length, Bool-cases, inl, inr, ◌⊎◌,
}
use zts_airdrop.Effect.{next_ok}
use zts_airdrop.Scan.{
  Feed, Tally, no_tally, take_momentums, fetch, batch, batch_count, scan_loop, result_of,
  scan_range, scan,
}
use zts_airdrop.Zenon.{Zenon}

zero_or_suc : (n : ℕ) → (n ≡ 0) ⊎ ((k : ℕ) × (n ≡ suc k))
zero_or_suc zero = inl refl
zero_or_suc (suc k) = inr (k, refl)

abbrev pub lesser : ℕ → ℕ → ℕ
lesser a b = if ltb b a then b else a

-- how many momentums a walk up to `to` covers from `height` on, if the chain ends at `tip`
abbrev pub covered : ℕ → ℕ → ℕ → ℕ
covered to tip height = lesser (to + 1 - height) (tip + 1 - height)

module _ (Z : Zenon) where
  -- the blocks of `n` momentums from height `h` on
  unfoldable pub slice : (ℕ → List (List Z.Address)) → ℕ → ℕ → List (List (List Z.Address))
  slice chain h zero = []
  slice chain h (suc n) = chain h ∷ slice chain (h + 1) n

  length-slice : (chain : ℕ → List (List Z.Address)) (h n : ℕ) → length (slice chain h n) ≡ n
  unfolding slice
  length-slice chain h zero = refl
  length-slice chain h (suc n) = ap suc (length-slice chain (h + 1) n)

  slice-append :
      (chain : ℕ → List (List Z.Address)) (h n k : ℕ)
      → slice chain h (n + k) ≡ slice chain h n ++ slice chain (h + n) k
  unfolding slice
  slice-append chain h zero k =
      let e : h + 0 ≡ h = omega arith in let z : 0 + k ≡ k = omega arith in rw (e, z)
  slice-append chain h (suc n) k =
      let e : h + 1 + n ≡ h + suc n = omega arith in
      let z : suc n + k ≡ suc (n + k) = omega arith in
      rw z (ap (◌∷◌ (chain h)) (slice-append chain (h + 1) n k ∙ rw e))

  take_momentums-append :
      (l r : List (List (List Z.Address))) (t : Tally Z)
      → take_momentums Z (l ++ r) t ≡ take_momentums Z r (take_momentums Z l t)
  unfolding take_momentums
  take_momentums-append [] r t = refl
  take_momentums-append (m ∷ l) r t = take_momentums-append l r _

  module _ {S : Type 0} (F : Feed Z S) (include_recipients : Bool) where
    -- The node holds the momentums up to its tip, each with the addresses that `chain` gives,
    -- and answers every call of the scan's batch size or less with the part of the asked
    -- momentums that it has; the context does not end.
    pub record IsFaithful (chain : ℕ → List (List Z.Address)) (tip : ℕ) : Type 0 where
      pub answers :
          (h c : ℕ) (s : S)
          → 1 ≤ h
          → c ≤ batch Z F include_recipients
          → (fetch Z F include_recipients h c s).0 ≡ ok (slice chain h (lesser c (tip + 1 - h)))
      pub alive : (s : S) → (F.is_done s).0 ≡ false

    module _ (fuel to height : ℕ) (t : Tally Z) (s : S) where
      loop_past :
          leb height to ≡ false
          → scan_loop Z F include_recipients (suc fuel) to height t s ≡ (ok t, s)
      unfolding scan_loop
      loop_past e = rw e

      abbrev asked : S
      asked = (F.is_done s).1

      abbrev answer : Result (List (List (List Z.Address))) × S
      answer =
          fetch Z F include_recipients height (batch_count Z F include_recipients to height) asked

      loop_empty :
          leb height to ≡ true
          → (F.is_done s).0 ≡ false
          → answer.0 ≡ ok []
          → (scan_loop Z F include_recipients (suc fuel) to height t s).0
            ≡ ok (take_momentums Z [] t)
      unfolding scan_loop
      loop_empty e f g = rw (e, f) (rw g)

      loop_goes :
          {m : List (List Z.Address)} {got : List (List (List Z.Address))}
          → leb height to ≡ true
          → (F.is_done s).0 ≡ false
          → answer.0 ≡ ok (m ∷ got)
          → scan_loop Z F include_recipients (suc fuel) to height t s
            ≡ scan_loop Z F include_recipients fuel to
                ((height + length (m ∷ got)) % 2 ^ 64)
                (take_momentums Z (m ∷ got) t)
                answer.1
      unfolding scan_loop
      loop_goes e f g = rw (e, f) (rw g)

    module _ (chain : ℕ → List (List Z.Address)) (tip : ℕ) (faithful : IsFaithful chain tip) where
      batch_count_bound :
          (to height : ℕ)
          → batch_count Z F include_recipients to height ≤ batch Z F include_recipients
      batch_count_bound to height = ground arith

      -- a batch that has all that is left, or a first part of it
      split_covered :
          (to height n : ℕ)
          → height ≤ to
          → to + 1 < 2 ^ 64
          → lesser (batch_count Z F include_recipients to height) (tip + 1 - height) ≡ n
          → (n + covered to tip ((height + n) % 2 ^ 64) ≡ covered to tip height)
            × ((height + n) % 2 ^ 64 ≡ height + n)
            × (height + n ≤ to + 1)
            × (n ≡ 0 → covered to tip height ≡ 0)
      split_covered to height n h k e = ground arith

      abbrev IsExact : ℕ → ℕ → ℕ → Tally Z → S → Type 0
      IsExact fuel to height t s =
          (scan_loop Z F include_recipients fuel to height t s).0
          ≡ ok (take_momentums Z (slice chain height (covered to tip height)) t)

      -- the node has nothing at this height
      round_empty :
          (fuel to height : ℕ) (t : Tally Z) (s : S)
          → 1 ≤ height
          → leb height to ≡ true
          → lesser (batch_count Z F include_recipients to height) (tip + 1 - height) ≡ 0
          → covered to tip height ≡ 0
          → IsExact (suc fuel) to height t s
      unfolding slice
      round_empty fuel to height t s h1 within none_left z =
          loop_empty fuel to height t s within (faithful.alive s) (
            rw none_left at (
              faithful.answers height (batch_count Z F include_recipients to height) (F.is_done s).1
                h1 (batch_count_bound to height)))
          ∙ rw z refl

      -- the node has some momentums, and the walk goes on behind them
      round_goes :
          (k fuel to height : ℕ) (t : Tally Z) (s : S)
          → 1 ≤ height
          → leb height to ≡ true
          → lesser (batch_count Z F include_recipients to height) (tip + 1 - height) ≡ suc k
          → (height + suc k) % 2 ^ 64 ≡ height + suc k
          → suc k + covered to tip (height + suc k) ≡ covered to tip height
          → ((t' : Tally Z) (s' : S) → IsExact fuel to (height + suc k) t' s')
          → IsExact (suc fuel) to height t s
      unfolding slice
      round_goes k fuel to height t s h1 within some_left fits split rest =
          let got = rw some_left at (
            faithful.answers height (batch_count Z F include_recipients to height) (F.is_done s).1
              h1 (batch_count_bound to height)) in
          ap (λ r. r.0) (loop_goes fuel to height t s within (faithful.alive s) got)
          ∙ rw (length-slice chain (height + 1) k, fits)
              (rest _ _
                ∙ rw (← split, slice-append chain height (suc k) (covered to tip (height + suc k)))
                    (ap ok (sym (take_momentums-append (slice chain height (suc k)) _ t))))

      scan_loop-IsExact :
          (fuel to height : ℕ) (t : Tally Z) (s : S)
          → 1 ≤ height
          → height ≤ to + 1
          → to + 1 < 2 ^ 64
          → to + 1 < fuel + height
          → IsExact fuel to height t s
      scan_loop-IsExact zero to height t s h1 h2 h3 h4 = absurd (omega arith)
      scan_loop-IsExact (suc fuel) to height t s h1 h2 h3 h4 =
          let n = lesser (batch_count Z F include_recipients to height) (tip + 1 - height) in
          elim (Bool-cases (leb height to)) [
            | inr past ↦
                let z : covered to tip height ≡ 0 = ground arith in
                rw (loop_past fuel to height t s past) (rw z (unfold slice take_momentums in refl))
            | inl within ↦
                let (split, fits, bound, none_left) =
                  split_covered to height n (ground arith) h3 refl in
                elim (zero_or_suc n) [
                  | inl z ↦ round_empty fuel to height t s h1 within z (none_left z)
                  | inr (k, e) ↦
                      round_goes k fuel to height t s h1 within e (rw e at fits)
                        (rw (fits, e) at split)
                        (λ t' s'.
                          scan_loop-IsExact fuel to (height + suc k) t' s' (omega arith)
                            (rw e at bound) h3 (omega arith))
                ]
          ]

      -- Over a node that answers every call for at most a batch with the part of the asked
      -- momentums that it has, and while the context does not end, a Scan of a range from
      -- height 1 on and below 2 ^ 64 - 1 ends without an error, and its counts and addresses
      -- are those of one walk over the momentums of the range that the node has, whatever the
      -- size of the batches.
      pub scan_exact :
          (from to : ℕ) (s : S)
          → 1 ≤ from
          → from ≤ to
          → to + 1 < 2 ^ 64
          → (elapsed : ℕ) × ((scan Z F include_recipients from to s).0
              ≡ ok (
                  result_of Z F include_recipients from to elapsed
                    (take_momentums Z (slice chain from (covered to tip from)) (no_tally Z))))
      unfolding scan scan_range
      scan_exact from to s h1 h2 h3 =
          let start = F.now s in
          let walk =
            scan_loop Z F include_recipients (to - from + 2) to from (no_tally Z) start.1 in
          let nonzero : (from == 0) ≡ false = ground arith in
          let nonempty : ltb to from ≡ false = ground arith in
          let exact =
            scan_loop-IsExact (to - from + 2) to from (no_tally Z) start.1 h1 (omega arith) h3
              (omega arith) in
          (
            (F.now walk.1).0 - start.0,
            rw nonzero (rw nonempty (ap (λ r. r.0) (next_ok _ walk exact))),
          )
