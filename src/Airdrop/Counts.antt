-- ===== src/Airdrop/Counts.antt =====
-- What the report counts.
use Prim.Native.Nat.add
use zts_airdrop.Airdrop.{
  Desk, Settings, Report, empty_report, Progress, on_failure, on_success, pay, visit, run_loop, run,
}
use zts_airdrop.Base.{
  ℕ, ◌+◌, ◌≤◌, ◌≡◌, List, [], ◌∷◌, none, sym, Err, wrapf, times, times-zero, times-suc, arith,
  length, length-append,
}
use zts_airdrop.Journal.{PaidMap}
use zts_airdrop.Zenon.{Zenon}

module _ (Z : Zenon) (cfg : Settings Z) where
  -- the money moved is the amount times the sends, and each failure left an error
  pub record IsBalanced (r : Report Z) : Type 0 where
    pub moved : r.total ≡ times cfg.amount r.sent
    pub explained : length r.errors ≡ r.failed

  abbrev pub handled : Report Z → ℕ
  handled r = r.sent + r.skipped + r.failed

  -- a round accounts for its recipient, unless it ends the run
  pub record IsCounted (p q : Progress Z) : Type 0 where
    pub balanced : IsBalanced q.report
    pub bounded : handled q.report ≤ handled p.report + 1
    pub complete : q.halt ≡ none → handled q.report ≡ handled p.report + 1

  on_failure-IsCounted :
      (addr : Z.Address) (e : Err) (p : Progress Z)
      → IsBalanced p.report
      → IsCounted p (on_failure Z cfg addr e p)
  unfolding on_failure
  on_failure-IsCounted addr e p h = ground (
    arith,
    length-append {0} p.report.errors (wrapf "%s: %w" (Z.address_string addr ∷ []) e ∷ []),
  )

  module _ {S : Type 0} (D : Desk Z S) where
    on_success-IsCounted :
        (n remaining : ℕ) (addr : Z.Address) (hash : Z.Hash) (p : Progress Z) (s : S)
        → IsBalanced p.report
        → IsCounted p (on_success Z D cfg n remaining addr hash p s).0
    unfolding on_success
    on_success-IsCounted n remaining addr hash p s h =
        ground (arith, times-suc cfg.amount p.report.sent)

    visit-IsCounted :
        (paid : PaidMap Z) (n remaining : ℕ) (addr : Z.Address) (p : Progress Z) (s : S)
        → IsBalanced p.report
        → IsCounted p (visit Z D cfg paid n remaining addr p s).0
    unfolding visit pay
    visit-IsCounted paid n remaining addr p s h =
        grind (arith, on_failure-IsCounted, on_success-IsCounted)

    run_loop-IsCounted :
        (paid : PaidMap Z) (n : ℕ) (recipients : List Z.Address) (p : Progress Z) (s : S)
        → IsBalanced p.report
        → let q = (run_loop Z D cfg paid n recipients p s).0 in
          IsBalanced q.report
          × (handled q.report ≤ handled p.report + length recipients)
          × (q.halt ≡ none → handled q.report ≡ handled p.report + length recipients)
    unfolding run_loop
    run_loop-IsCounted paid n [] p s h = (h, omega arith, λ e. omega arith)
    run_loop-IsCounted paid n (addr ∷ rest) p s h =
        let (q, t) = visit Z D cfg paid n (length rest) addr p s in
        let round = visit-IsCounted paid n (length rest) addr p s h in
        ground (arith, round, run_loop-IsCounted paid (n + 1) rest q t round.balanced)

    -- The report of every run has a total of the amount times the sends and one error for each
    -- failure; sends, skips and failures add up to at most the number of recipients, and to
    -- exactly that number if no error ended the run.
    pub run_counts :
        (recipients : List Z.Address) (paid : PaidMap Z) (s : S)
        → let q = (run Z D cfg recipients paid s).0 in
          IsBalanced q.report
          × (handled q.report ≤ length recipients)
          × (q.halt ≡ none → handled q.report ≡ length recipients)
    unfolding run
    run_counts recipients paid s =
        let start : Progress Z = record { report = empty_report Z; consecutive = 0; halt = none } in
        rw (add.zero (length recipients)) at (
          run_loop-IsCounted paid 1 recipients start s
            (record { moved = sym (times-zero cfg.amount); explained = omega arith }))
