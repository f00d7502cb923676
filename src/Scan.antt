-- ===== src/Scan.antt =====
-- scan.go: the addresses that acted in a range of momentums, and the range itself.
pub mod Bounds
pub mod Batches
pub mod Seen
pub mod Collected
pub mod Keeps
use zts_airdrop.Base.{
  ℕ, zero, suc, ◌+◌, ◌-◌, ◌%◌, ◌^◌, Bool, true, false, List, [], ◌∷◌, ◌++◌, map, Bytes, Err,
  canceled, diverges, errorf, wrapf, Result, ok, err, ltb, leb, ◌==◌, if◌then◌else◌, length,
  is_empty, ite,
}
use zts_airdrop.Decimal.{decimal}
use zts_airdrop.Effect.{M, next, wrapping}
use zts_airdrop.Ledger.{Momentum, DetailedMomentum, AccountHeader, AccountBlock}
use zts_airdrop.Rpc.{max_count_size}
use zts_airdrop.ScanLog.{ScanResult}
use zts_airdrop.Sort.{sort_by}
use zts_airdrop.Zenon.{Zenon, same_address}

-- the two ends of a resolved range
pub record Range : Type 0 where
  pub from : ℕ
  pub to : ℕ

-- the start: an absolute height, or so many momentums back from the end
unfoldable pub range_start : ℕ → ℕ → ℕ → Result ℕ
range_start from_height last_n to =
    if ltb 0 from_height
    then ok from_height
    else if ltb 0 last_n
    then ok (if leb to last_n then 1 else to - last_n + 1)
    else err (errorf "pass -from <height> or -last <momentums>" [])

-- the end: the tip, unless a height is given that the chain has reached
unfoldable pub range_end : ℕ → ℕ → Result ℕ
range_end tip to_height =
    if ltb 0 to_height
    then if ltb tip to_height
      then err (errorf "-to %d is above the chain tip at %d" (decimal to_height ∷ decimal tip ∷ []))
      else ok to_height
    else ok tip

-- `ResolveRange` behind the reading of the tip
unfoldable pub range_at : ℕ → ℕ → ℕ → ℕ → Result Range
range_at tip from_height last_n to_height = elim (range_end tip to_height) [
  | err e ↦ err e
  | ok to ↦ elim (range_start from_height last_n to) [
    | err e ↦ err e
    | ok from ↦
        if ltb to from
        then err
            (errorf "-from %d is above the end of the range at %d" (decimal from ∷ decimal to ∷ []))
        else ok (record { from = from; to = to })
  ]
]

module _ (Z : Zenon) where
  -- what a scan uses, over a state that it does not look into: the context, the client's two
  -- calls and the clock
  pub record Feed (S : Type 0) : Type 0 where
    pub is_done : S → Bool × S
    pub momentums : ℕ → ℕ → S → Result (List (Momentum Z)) × S
    pub detailed : ℕ → ℕ → S → Result (List (DetailedMomentum Z)) × S
    pub now : S → ℕ × S

  -- the counts so far, and the map of addresses seen
  pub record Tally : Type 0 where
    pub momentums : ℕ
    pub blocks : ℕ
    pub contracts : ℕ
    pub seen : List Z.Address

  abbrev pub no_tally : Tally
  no_tally = record { momentums = 0; blocks = 0; contracts = 0; seen = [] }

  -- `seen[addr] = struct{}{}`
  unfoldable pub note : Z.Address → List Z.Address → List Z.Address
  note a [] = a ∷ []
  note a (b ∷ l) = let rest = note a l in if same_address Z a b then b ∷ l else b ∷ rest

  -- the closure `add`
  unfoldable pub add : Z.Address → Tally → Tally
  add a t =
      if same_address Z a Z.zero_address
      then t
      else if Z.is_embedded a
      then record t { contracts = t.contracts + 1 }
      else record t { seen = note a t.seen }

  unfoldable pub add_all : List Z.Address → Tally → Tally
  add_all [] t = t
  add_all (a ∷ rest) t = add_all rest (add a t)

  -- one block: its author, or its author and its recipient
  unfoldable pub take_blocks : List (List Z.Address) → Tally → Tally
  take_blocks [] t = t
  take_blocks (b ∷ rest) t = take_blocks rest (add_all b (record t { blocks = t.blocks + 1 }))

  -- the momentums of a batch, each as the addresses of its blocks
  unfoldable pub take_momentums : List (List (List Z.Address)) → Tally → Tally
  take_momentums [] t = t
  take_momentums (m ∷ rest) t =
      take_momentums rest (take_blocks m (record t { momentums = t.momentums + 1 }))

  abbrev pub header_blocks : Momentum Z → List (List Z.Address)
  header_blocks m = map (λ (h : AccountHeader Z). h.address ∷ []) m.content

  abbrev pub detailed_blocks : DetailedMomentum Z → List (List Z.Address)
  detailed_blocks m = map (λ (b : AccountBlock Z). b.address ∷ b.to_address ∷ []) m.account_blocks

  module _ {S : Type 0} (F : Feed S) (include_recipients : Bool) where
    -- the call that `scanBatch` makes
    unfoldable pub fetch : ℕ → ℕ → M S (List (List (List Z.Address)))
    fetch height count s =
        if include_recipients
        then next (λ l t. (ok (map detailed_blocks l), t)) (F.detailed height count s)
        else next (λ l t. (ok (map header_blocks l), t)) (F.momentums height count s)

    abbrev pub batch : ℕ
    batch = if include_recipients then 100 else max_count_size

    abbrev pub batch_count : ℕ → ℕ → ℕ
    batch_count to height =
        let remaining = (to - height + 1) % 2 ^ 64 in
        if ltb remaining batch then remaining else batch

    -- one round: the context, the batch, and on unless the node had nothing
    unfoldable pub scan_loop : ℕ → ℕ → ℕ → Tally → M S Tally
    scan_loop zero to height t s = (err diverges, s)
    scan_loop (suc fuel) to height t s =
        let (ended, s') = F.is_done s in
        if leb height to
        then if ended
          then (err canceled, s')
          else next
              (λ got u.
                let t' = take_momentums got t in
                elim (is_empty got) [
                  | true ↦ (ok t', u)
                  | false ↦ scan_loop fuel to ((height + length got) % 2 ^ 64) t' u
                ])
              (wrapping (wrapf "scan from height %d: %w" (decimal height ∷ []))
                (fetch height (batch_count to height)) s')
        else (ok t, s)

    unfoldable pub result_of : ℕ → ℕ → ℕ → Tally → ScanResult Z
    result_of from to elapsed t = record {
      from_height = from;
      to_height = to;
      momentums = t.momentums;
      blocks = t.blocks;
      contracts = t.contracts;
      addresses = sort_by Z.address_string t.seen;
      elapsed = elapsed;
    }

    -- `Scan`, behind the test of its range
    unfoldable pub scan_range : ℕ → ℕ → M S (ScanResult Z)
    unfolding scan_loop result_of
    scan_range from to s =
        let (start, s') = F.now s in
        next (λ t u. let (end, u') = F.now u in (ok (result_of from to (end - start) t), u'))
          (scan_loop (to - from + 2) to from no_tally s')

    -- `Scan`
    unfoldable pub scan : ℕ → ℕ → M S (ScanResult Z)
    unfolding scan_range
    scan from to s =
        let first = if from == 0 then 1 else from in
        if ltb to first
        then (
          err (errorf "empty range: to (%d) is below from (%d)" (decimal to ∷ decimal first ∷ [])),
          s,
        )
        else scan_range first to s
