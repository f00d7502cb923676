-- ===== src/Airdrop.antt =====
-- airdrop.go: the loop that pays each recipient in turn.
pub mod Counts
pub mod Finished
pub mod Trace
pub mod Payments
pub mod Resume
pub mod Paying
use zts_airdrop.Base.{
  ℕ, zero, suc, ◌+◌, ◌/◌, ◌+ℤ◌, Bool, true, false, ◌&&◌, List, [], ◌∷◌, ◌++◌, Option, none, some,
  Bytes, Err, canceled, errorf, wrapf, is_canceled, ℤ, pos, Result, ok, err, ltb, leb,
  if◌then◌else◌, length, take,
}
use zts_airdrop.Decimal.{decimal}
use zts_airdrop.Journal.{PaidMap, find}
use zts_airdrop.Zenon.{Zenon}

module _ (Z : Zenon) where
  -- What the loop uses, over a state that it does not look into: the context, the sender, the
  -- journal and the pause between sends.
  pub record Desk (S : Type 0) : Type 0 where
    pub is_done : S → Bool × S
    pub send : Z.Address → S → Result Z.Hash × S
    pub record_payment : ℕ → Z.Address → Z.Hash → S → Result (Unit {0}) × S
    pub pause : S → Bool × S

  -- the settings of an `Airdrop`; the limit is 0 if it is not positive
  pub record Settings : Type 0 where
    pub amount : ℤ
    pub has_journal : Bool
    pub delay : ℕ
    pub stop_after_errors : ℕ

  pub record Report : Type 0 where
    pub sent : ℕ
    pub skipped : ℕ
    pub failed : ℕ
    pub total : ℤ
    pub errors : List Err

  -- the report so far, the failures in a row, and the error that ends the run
  pub record Progress : Type 0 where
    pub report : Report
    pub consecutive : ℕ
    pub halt : Option Err

  abbrev pub empty_report : Report
  empty_report = record { sent = 0; skipped = 0; failed = 0; total = pos 0; errors = [] }

  abbrev pub skip_one : Report → Report
  skip_one r = record r { skipped = r.skipped + 1 }

  abbrev pub fail_one : Z.Address → Err → Report → Report
  fail_one addr e r = record r {
    failed = r.failed + 1;
    errors = r.errors ++ (wrapf "%s: %w" (Z.address_string addr ∷ []) e ∷ []);
  }

  abbrev pub pay_one : ℤ → Report → Report
  pay_one amount r = record r { sent = r.sent + 1; total = r.total +ℤ amount }

  abbrev pub journal_error : Z.Address → Z.Hash → Err → Err
  journal_error addr hash e =
      wrapf "journal write failed after paying %s in %s: %w"
        (Z.address_string addr ∷ Z.hash_string hash ∷ []) e

  -- a failed send: the end if the context is gone or too many failed in a row
  unfoldable pub on_failure : Settings → Z.Address → Err → Progress → Progress
  on_failure cfg addr e p =
      let row = p.consecutive + 1 in
      let counted = fail_one addr e p.report in
      if is_canceled e
      then record p { halt = some e }
      else if ltb 0 cfg.stop_after_errors && leb cfg.stop_after_errors row
      then record {
        report = counted;
        consecutive = row;
        halt = some (errorf "%d sends in a row failed; stopping" (decimal row ∷ []));
      }
      else record { report = counted; consecutive = row; halt = none }

  module _ {S : Type 0} (D : Desk S) (cfg : Settings) where
    -- the pause before the next send, if one is left
    unfoldable pub rest_between : ℕ → Progress → S → Progress × S
    rest_between remaining p s =
        let (ended, s') = D.pause s in
        if ltb 0 cfg.delay && ltb 0 remaining
        then (if ended then record p { halt = some canceled } else p, s')
        else (p, s)

    -- behind a send that succeeded: the journal, the counters, the pause
    unfoldable pub on_success : ℕ → ℕ → Z.Address → Z.Hash → Progress → S → Progress × S
    unfolding rest_between
    on_success n remaining addr hash p s =
        let reset = record p { consecutive = 0 } in
        let paid : Progress = record {
          report = pay_one cfg.amount p.report;
          consecutive = 0;
          halt = none;
        } in
        elim cfg.has_journal [
          | false ↦ rest_between remaining paid s
          | true ↦
              let (written, s') = D.record_payment n addr hash s in
              elim written [
                | err e ↦ (record reset { halt = some (journal_error addr hash e) }, s')
                | ok _ ↦ rest_between remaining paid s'
              ]
        ]

    -- one recipient that is not paid yet
    unfoldable pub pay : ℕ → ℕ → Z.Address → Progress → S → Progress × S
    pay n remaining addr p s =
        let (sent, s') = D.send addr s in
        elim sent [
          | err e ↦ (on_failure cfg addr e p, s')
          | ok hash ↦ on_success n remaining addr hash p s'
        ]

    -- one round of the loop
    unfoldable pub visit : PaidMap Z → ℕ → ℕ → Z.Address → Progress → S → Progress × S
    visit paid n remaining addr p s =
        let (ended, s') = D.is_done s in
        if ended then (record p { halt = some canceled }, s') else elim (find Z addr paid) [
          | some hash ↦ (record p { report = skip_one p.report }, s')
          | none ↦ pay n remaining addr p s'
        ]

    -- the loop, from the recipient with number `n` on
    unfoldable pub run_loop : PaidMap Z → ℕ → List Z.Address → Progress → S → Progress × S
    run_loop paid n [] p s = (p, s)
    run_loop paid n (addr ∷ rest) p s =
        let (p', s') = visit paid n (length rest) addr p s in
        elim p'.halt [ some e ↦ (p', s') | none ↦ run_loop paid (n + 1) rest p' s' ]

    -- `Run`: the report and the error are in the final progress
    unfoldable pub run : List Z.Address → PaidMap Z → S → Progress × S
    unfolding run_loop
    run recipients paid s =
        run_loop paid 1 recipients (record { report = empty_report; consecutive = 0; halt = none })
          s

-- `short`
unfoldable pub short : Bytes → Bytes
short s = if leb (length s) 12 then s else take 12 s

-- the loop of `width`, whose fuel is the number itself
unfoldable pub width_loop : ℕ → ℕ → ℕ → ℕ
width_loop zero n w = w
width_loop (suc fuel) n w =
    let more = width_loop fuel (n / 10) (w + 1) in if leb 10 n then more else w

-- `width`
unfoldable pub width : ℕ → ℕ
unfolding width_loop
width n = width_loop n n 1
