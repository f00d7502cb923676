-- ===== src/Scan/Keeps.antt =====
-- What the calls of a scan keep, the scan keeps.
use zts_airdrop.Base.{
  ℕ, zero, suc, ◌+◌, ◌-◌, Bool, true, false, Bool-cases, inl, inr, ok, ltb, leb, ◌==◌, is_empty,
  ◌%◌, ◌^◌, length, wrapf, if◌then◌else◌, List, [], ◌∷◌,
}
use zts_airdrop.Decimal.{decimal}
use zts_airdrop.Effect.{M, next_keeps, wrap_keeps}
use zts_airdrop.Scan.{
  Feed, Tally, take_momentums, no_tally, batch_count, fetch, scan_loop, scan_range, scan,
}
use zts_airdrop.Zenon.{Zenon}

module _ (Z : Zenon) {S : Type 0} (F : Feed Z S) (include_recipients : Bool) (P : S → Type 0)
    (is_done_keeps : (s : S) → P s → P (F.is_done s).1) (now_keeps : (s : S) → P s → P (F.now s).1)
    (momentums_keeps : (h c : ℕ) (s : S) → P s → P (F.momentums h c s).1)
    (detailed_keeps : (h c : ℕ) (s : S) → P s → P (F.detailed h c s).1) where
  fetch_keeps : (height count : ℕ) (s : S) → P s → P (fetch Z F include_recipients height count s).1
  unfolding fetch
  fetch_keeps height count s h = elim (Bool-cases include_recipients) [
    | inl e ↦
        rw (e, fetch)
          (next_keeps P _ (F.detailed height count s) (detailed_keeps height count s h)
            (λ l. detailed_keeps height count s h))
    | inr e ↦
        rw (e, fetch)
          (next_keeps P _ (F.momentums height count s) (momentums_keeps height count s h)
            (λ l. momentums_keeps height count s h))
  ]

  abbrev behind_batch : ℕ → ℕ → ℕ → Tally Z → List (List (List Z.Address)) → M S (Tally Z)
  behind_batch fuel to height t got u =
      let t' = take_momentums Z got t in
      elim (is_empty got) [
        | true ↦ (ok t', u)
        | false ↦ scan_loop Z F include_recipients fuel to ((height + length got) % 2 ^ 64) t' u
      ]

  behind_batch_keeps :
      (fuel to height : ℕ) (t : Tally Z) (got : List (List (List Z.Address))) (s : S)
      → ((h : ℕ) (v : Tally Z) → P (scan_loop Z F include_recipients fuel to h v s).1)
      → P s
      → P (behind_batch fuel to height t got s).1
  behind_batch_keeps fuel to height t [] s rest h = h
  behind_batch_keeps fuel to height t (m ∷ got) s rest h = rest _ _

  scan_loop_keeps :
      (fuel to height : ℕ) (t : Tally Z) (s : S)
      → P s
      → P (scan_loop Z F include_recipients fuel to height t s).1
  unfolding scan_loop
  scan_loop_keeps zero to height t s h = h
  scan_loop_keeps (suc fuel) to height t s h =
      let asked = is_done_keeps s h in
      elim (Bool-cases (leb height to)) [
        | inr past ↦ rw (past, scan_loop) h
        | inl within ↦ elim (Bool-cases (F.is_done s).0) [
          | inl ended ↦ rw (within, ended, scan_loop) asked
          | inr going ↦
              let count = batch_count Z F include_recipients to height in
              let fetched =
                wrap_keeps P (wrapf "scan from height %d: %w" (decimal height ∷ []))
                  (fetch Z F include_recipients height count (F.is_done s).1)
                  (fetch_keeps height count (F.is_done s).1 asked) in
              rw (within, going, scan_loop)
                (next_keeps P (behind_batch fuel to height t) _ fetched (λ got.
                  behind_batch_keeps fuel to height t got _
                    (λ h v. scan_loop_keeps fuel to h v _ fetched) fetched))
        ]
      ]

  scan_range_keeps : (from to : ℕ) (s : S) → P s → P (scan_range Z F include_recipients from to s).1
  unfolding scan_range
  scan_range_keeps from to s h =
      let start = now_keeps s h in
      let looped = scan_loop_keeps (to - from + 2) to from (no_tally Z) (F.now s).1 start in
      next_keeps P _
        (scan_loop Z F include_recipients (to - from + 2) to from (no_tally Z) (F.now s).1) looped
        (λ t. now_keeps _ looped)

  pub scan_keeps : (from to : ℕ) (s : S) → P s → P (scan Z F include_recipients from to s).1
  unfolding scan
  scan_keeps from to s h =
      let first = if from == 0 then 1 else from in
      elim (Bool-cases (ltb to first)) [
        | inl empty ↦ rw (empty, scan) h
        | inr some_left ↦ rw (some_left, scan) (scan_range_keeps first to s h)
      ]
