-- ===== src/Plan.antt =====
-- plan.go: the stage that a scan and a replay share: pricing, the tests, and the sends.
pub mod Stages
pub mod Outcome
pub mod Planned
pub mod Resumed
pub mod Dry
pub mod Complete
use zts_airdrop.Airdrop.{Settings, Report, Progress, run}
use zts_airdrop.Airdrop.Paying.{world_desk}
use zts_airdrop.Amount.{format_amount}
use zts_airdrop.Base.{
  ℕ, ◌+◌, Bool, true, false, ◌&&◌, List, [], ◌∷◌, Option, none, some, Bytes, codes, Err, errorf,
  wrapf, outside, ℤ, ◌-ℤ◌, times, lt_int, Result, ok, err, ltb, if◌then◌else◌, length,
}
use zts_airdrop.Decimal.{decimal, decimal_int}
use zts_airdrop.Effect.{M, next}
use zts_airdrop.Journal.{PaidMap, find, run_key, paid, open_journal}
use zts_airdrop.Ledger.{Token}
use zts_airdrop.Options.{Options}
use zts_airdrop.Rpc.{balance}
use zts_airdrop.ScanLog.{ScanLog}
use zts_airdrop.Sender.{Sender, estimate_plasma}
use zts_airdrop.Sender.Receiving.{receive_all}
use zts_airdrop.World.{Host, World}
use zts_airdrop.Zenon.{Zenon}

module _ (Z : Zenon) (H : Host Z) where
  -- `runPlan`, but for the client, which is in the world, and the scan log
  pub record RunPlan : Type 0 where
    pub sender : Option (Sender Z H)
    pub self : Z.Address
    pub zts : Z.Zts
    pub token : Option (Token Z)
    pub amount : Option ℤ
    pub recipients : List Z.Address
    pub from : ℕ
    pub to : ℕ
    pub sending : Bool

  -- the world, and the scan log that the run will write, if it writes one
  pub record Session : Type 0 where
    pub world : World Z H
    pub scan_log : Option ScanLog

  abbrev pub on_world : {A : Type 0} → M (World Z H) A → M Session A
  on_world m s = let (r, w) = m s.world in (r, record s { world = w })

  -- what the program would stop on with a panic
  abbrev pub panics : Bytes → Err
  panics what = outside what

  -- the recipients that the paid map does not name
  unfoldable pub outstanding : PaidMap Z → List Z.Address → ℕ
  outstanding m [] = 0
  outstanding m (a ∷ rest) =
      let others = outstanding m rest in
      elim (find Z a m) [ none ↦ others + 1 | some hash ↦ others ]

  -- `p.scanLog.Airdrop = ...`
  unfoldable pub noted : Options → RunPlan → Token Z → ℤ → Bytes → ℕ → ScanLog → ScanLog
  noted o p token amount key already l =
      let total = times amount (length p.recipients) in
      record l {
        airdrop = some (record {
          zts = Z.zts_string p.zts;
          symbol = token.symbol;
          decimals = token.decimals;
          amount_raw = decimal_int amount;
          amount = format_amount (some amount) token.decimals;
          total_raw = decimal_int total;
          total = format_amount (some total) token.decimals;
          sender = elim p.sender [ none ↦ [] | some x ↦ Z.address_string p.self ];
          run_key = key;
          journal = o.journal_path;
          published = false;
          sent = 0;
          skipped = 0;
          failed = 0;
          already_paid = already;
        });
      }

  -- on the log, if there is one
  unfoldable pub annotate : Options → RunPlan → Token Z → ℤ → Bytes → ℕ → Session → Session
  unfolding noted
  annotate o p token amount key already s = elim s.scan_log [
    | none ↦ s
    | some l ↦ record s { scan_log = some (noted o p token amount key already l) }
  ]

  -- taking delivery before the balance is read, if it is asked for
  unfoldable pub collect : ℕ → Options → Option (Sender Z H) → M (World Z H) (Unit {0})
  collect rounds o none w = (ok tt, w)
  collect rounds o (some sender) w =
      let ((received, failure), w') = receive_all Z H rounds sender w in
      if o.receive
      then (
        elim failure [ none ↦ ok tt | some e ↦ err (wrapf "receiving pending blocks: %w" [] e) ],
        w',
      )
      else (ok tt, w)

  abbrev pub shortfall : RunPlan → Token Z → ℤ → Err
  shortfall p token missing =
      errorf
        "balance is short by %s %s — fund %s, or re-run with -receive to collect its pending blocks"
        (format_amount (some missing) token.decimals ∷ token.symbol ∷ Z.address_string p.self ∷ [])

  -- the estimate of plasma, of which only the printed line depends on the answer
  unfoldable pub estimate : Sender Z H → List Z.Address → M (World Z H) (Unit {0})
  estimate sender [] w = (err (panics (codes "index out of range")), w)
  estimate sender (a ∷ rest) w = (ok tt, (estimate_plasma Z H sender a w).1)

  -- the balance against what is needed
  unfoldable pub afford : RunPlan → Token Z → ℤ → Option (Sender Z H) → M (World Z H) (Unit {0})
  unfolding estimate
  afford p token needed none w = (ok tt, w)
  afford p token needed (some sender) w =
      next
        (λ held w'.
          if lt_int held needed && p.sending
          then (err (shortfall p token (needed -ℤ held)), w')
          else estimate sender p.recipients w')
        (balance Z H p.self p.zts w)

  unfoldable pub settings_of : Options → ℤ → Settings Z
  settings_of o amount = record {
    amount = amount;
    has_journal = true;
    delay = o.delay;
    stop_after_errors = o.stop_after;
  }

  -- what the run did, on the log
  unfoldable pub report_on : Report Z → Option ScanLog → Option ScanLog
  report_on r none = none
  report_on r (some l) = some (record l {
    airdrop = elim l.airdrop [
      | none ↦ none
      | some a ↦
          some
            (record a { published = true; sent = r.sent; skipped = r.skipped; failed = r.failed })
    ];
  })

  -- the error of a run, or its failures
  unfoldable pub outcome : Progress Z → Result (Unit {0})
  outcome q = elim q.halt [
    | some e ↦ err e
    | none ↦
        if ltb 0 q.report.failed
        then err (errorf "%d sends failed" (decimal q.report.failed ∷ []))
        else ok tt
  ]

  -- `drop.Run` and what follows it
  unfoldable pub send_out :
      Options → RunPlan → ℤ → Bytes → PaidMap Z → Option (Sender Z H) → M Session (Unit {0})
  unfolding settings_of report_on outcome
  send_out o p amount key already none s = (err (panics (codes "nil pointer dereference")), s)
  send_out o p amount key already (some sender) s =
      let cfg = settings_of o amount in
      let (q, w) = run Z (world_desk Z H key cfg p.zts sender) cfg p.recipients already s.world in
      (outcome q, record { world = w; scan_log = report_on q.report s.scan_log })

  -- a dry run ends here
  unfoldable pub conclude : Options → RunPlan → ℤ → Bytes → PaidMap Z → M Session (Unit {0})
  conclude o p amount key already s =
      if p.sending
      then next (λ _. send_out o p amount key already p.sender) (on_world (open_journal Z H) s)
      else (ok tt, s)

  -- behind the reading of the journal
  unfoldable pub priced :
      ℕ → Options → RunPlan → Token Z → ℤ → Bytes → PaidMap Z → M Session (Unit {0})
  unfolding annotate outstanding collect afford
  priced rounds o p token amount key already s =
      let needed = times amount (outstanding already p.recipients) in
      next
        (λ _ t.
          next (λ _. conclude o p amount key already) (on_world (afford p token needed p.sender) t))
        (on_world (collect rounds o p.sender) (annotate o p token amount key (length already) s))

  unfoldable pub plan_and_send : ℕ → Options → RunPlan → M Session (Unit {0})
  unfolding priced
  plan_and_send rounds o p s = elim p.token [
    | none ↦ (ok tt, s)
    | some token ↦ elim p.amount [
      | none ↦ (ok tt, s)
      | some amount ↦
          let key = run_key Z p.zts amount p.from p.to in
          next (λ already. priced rounds o p token amount key already)
            (on_world (paid Z H o.journal_path key) s)
    ]
  ]
