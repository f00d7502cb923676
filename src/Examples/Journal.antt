-- ===== src/Examples/Journal.antt =====
-- A payment recorded into an empty journal, and two runs in a row.
use zts_airdrop.Base.{ℕ, ◌+◌, ◌⊎◌, ◌≡◌, refl, [], some, pos, ok, codes, arith}
use zts_airdrop.Decimal.{decimal, decimal_int}
use zts_airdrop.Examples.Chain.{chain, chain-IsLawful}
use zts_airdrop.Examples.Machine.{machine, machine-IsJson}
use zts_airdrop.Journal.Keys.{IsShortCollision, run_key_separates}
use zts_airdrop.Journal.{
  run_key, run_preimage, assign, paid_in, take_lines, split_lines, entry, record_payment,
  append_line,
}
use zts_airdrop.Journal.Recorded.{IsReadAs, record_payment-reads}
use zts_airdrop.World.{World}

abbrev empty_file : World chain (machine chain (λ h. 1000 + h))
empty_file = record { net = 0; id = 0; posted = []; last_hash = 0; file = some [] }

reads_nothing :
    IsReadAs chain (machine chain (λ h. 1000 + h)) (codes "paid.jsonl") (codes "ab") (some []) []
unfolding paid_in take_lines split_lines
reads_nothing = record { whole = tt; exists = refl; reads = refl }

recorded_fine :
    (record_payment chain
      (machine chain (λ h. 1000 + h))
      (codes "ab")
      1
      11
      (pos 5)
      3
      111
      empty_file).0
    ≡ ok tt
unfolding record_payment append_line
recorded_fine = refl

record_payment-reads_example :
    IsReadAs chain
      (machine chain (λ h. 1000 + h))
      (codes "paid.jsonl")
      (codes "ab")
      (record_payment chain
        (machine chain (λ h. 1000 + h))
        (codes "ab")
        1
        11
        (pos 5)
        3
        111
        empty_file).1.file
      (assign chain 11 (decimal 111) [])
unfolding entry decimal decimal_int
record_payment-reads_example =
    record_payment-reads chain (machine chain (λ h. 1000 + h)) (codes "paid.jsonl") (codes "ab")
      chain-IsLawful (machine-IsJson chain (λ h. 1000 + h)) 1 11 (pos 5) 3 111 empty_file []
      reads_nothing (omega arith) recorded_fine

one_key : run_key chain 1 (pos 5) 1 9 ≡ run_key chain 1 (pos 5) 1 9
one_key = refl

run_key_separates_example :
    (◌≡◌ {A = ℕ} 1 1 × (pos 5 ≡ pos 5) × ◌≡◌ {A = ℕ} 1 1 × ◌≡◌ {A = ℕ} 9 9)
    ⊎ IsShortCollision chain chain-IsLawful
        (run_preimage chain 1 (pos 5) 1 9)
        (run_preimage chain 1 (pos 5) 1 9)
run_key_separates_example =
    run_key_separates chain chain-IsLawful 1 1 (pos 5) (pos 5) 1 1 9 9 one_key
