-- ===== src/Airdrop/Finished.antt =====
-- How many sends a run attempts that no error ends.
use zts_airdrop.Airdrop.{
  Desk, Settings, Report, empty_report, Progress, on_failure, on_success, pay, visit, run_loop, run,
}
use zts_airdrop.Airdrop.Trace.{unpaid, unpaid-cons}
use zts_airdrop.Base.{ℕ, ◌+◌, ◌≡◌, List, [], ◌∷◌, none, Err, arith, length, length-append}
use zts_airdrop.Journal.{PaidMap}
use zts_airdrop.Zenon.{Zenon}

module _ (Z : Zenon) (cfg : Settings Z) {S : Type 0} (D : Desk Z S) where
  abbrev pub attempted : Report Z → ℕ
  attempted r = r.sent + r.failed

  -- so many sends attempted more, unless the run ended
  abbrev Attempts : ℕ → Progress Z → Progress Z → Type 0
  Attempts n p q = q.halt ≡ none → attempted q.report ≡ attempted p.report + n

  on_failure-Attempts :
      (addr : Z.Address) (e : Err) (p : Progress Z) → Attempts 1 p (on_failure Z cfg addr e p)
  unfolding on_failure
  on_failure-Attempts addr e p = ground arith

  on_success-Attempts :
      (n remaining : ℕ) (addr : Z.Address) (hash : Z.Hash) (p : Progress Z) (s : S)
      → Attempts 1 p (on_success Z D cfg n remaining addr hash p s).0
  unfolding on_success
  on_success-Attempts n remaining addr hash p s = ground arith

  visit-Attempts :
      (paid : PaidMap Z) (n remaining : ℕ) (addr : Z.Address) (p : Progress Z) (s : S)
      → Attempts (length (unpaid Z paid (addr ∷ []))) p (visit Z D cfg paid n remaining addr p s).0
  unfolding visit pay unpaid
  visit-Attempts paid n remaining addr p s = grind (arith, on_failure-Attempts, on_success-Attempts)

  run_loop-Attempts :
      (paid : PaidMap Z) (n : ℕ) (recipients : List Z.Address) (p : Progress Z) (s : S)
      → Attempts (length (unpaid Z paid recipients)) p (run_loop Z D cfg paid n recipients p s).0
  unfolding run_loop
  run_loop-Attempts paid n [] p s = unfold unpaid in λ e. omega arith
  run_loop-Attempts paid n (addr ∷ rest) p s =
      let (q, t) = visit Z D cfg paid n (length rest) addr p s in
      rw (unpaid-cons Z paid addr rest) (
        ground (
          arith,
          length-append {0} (unpaid Z paid (addr ∷ [])) (unpaid Z paid rest),
          visit-Attempts paid n (length rest) addr p s,
          run_loop-Attempts paid (n + 1) rest q t,
        ))

  -- A run that no error ends counts as many sends and failures as there are recipients that
  -- the paid map does not name.
  pub run_attempts_all :
      (recipients : List Z.Address) (paid : PaidMap Z) (s : S)
      → let q = (run Z D cfg recipients paid s).0 in
        q.halt ≡ none → attempted q.report ≡ length (unpaid Z paid recipients)
  unfolding run
  run_attempts_all recipients paid s =
      let start : Progress Z = record { report = empty_report Z; consecutive = 0; halt = none } in
      λ e. omega (arith, run_loop-Attempts paid 1 recipients start s e)
