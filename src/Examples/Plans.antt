-- ===== src/Examples/Plans.antt =====
-- A plan over the small chain, sent and then sent again behind a restart.
use zts_airdrop.Base.{
  ℕ, ◌<◌, ◌≡◌, ◌≢◌, refl, Bool, true, false, [], ◌∷◌, none, some, Bytes, codes, pos, length, arith,
  Err, ok, err, times,
}
use zts_airdrop.Airdrop.{journal_error, run, visit, pay, on_success, rest_between}
use zts_airdrop.Decimal.{decimal, decimal_int}
use zts_airdrop.Examples.Machine.{machine, machine-IsJson}
use zts_airdrop.Examples.Paying.{small, small-IsLawful, one_hash, payer, fresh, same_bool}
use zts_airdrop.Journal.{
  paid, paid_in, take_lines, split_lines, max_line, entry, run_key, run_preimage, find,
  open_journal, record_payment, append_line,
}
use zts_airdrop.Journal.Recorded.{payment_line}
use zts_airdrop.Ledger.{Token}
use zts_airdrop.Options.{Options}
use zts_airdrop.Plan.{RunPlan, Session, plan_and_send, conclude, send_out, outcome}
use zts_airdrop.Plan.Outcome.{plan_key, IsPlanned}
use zts_airdrop.Plan.Complete.{IsPaidOff, plan_and_send-IsPaidOff}
use zts_airdrop.Plan.Planned.{plan_and_send-IsPlanned}
use zts_airdrop.Plan.Resumed.{IsResumedPlan, plan_and_send-IsResumedPlan}
use zts_airdrop.Plan.Stages.{IsReadable}
use zts_airdrop.World.{World}
use zts_airdrop.Text.{same_text}
use zts_airdrop.Sender.{
  receive, send, frontier, accept_frontier, submit, pay_plasma, with_plasma, estimate_plasma,
}
use zts_airdrop.Sender.Receiving.{receive_all}
use zts_airdrop.Rpc.{
  unreceived_blocks, balance, frontier_account_block, call, call_ignoring, post, frontier_momentum,
  publish_raw_transaction, required_pow, has_result, read_envelope,
}

abbrev pub flags : Options
flags = record {
  node = codes "http://n";
  mnemonic_file = [];
  mnemonic_env = [];
  keystore = [];
  password = [];
  index = 0;
  devnet = true;
  zts_flag = codes "z";
  amount = codes "5";
  from = 1;
  to = 9;
  last = 0;
  include_recipients = false;
  exclude_self = false;
  min_holding_flag = [];
  confirm = true;
  dry_run = false;
  receive = true;
  journal_path = codes "paid.jsonl";
  delay = 0;
  stop_after = 3;
  list_only = false;
  out_file = [];
  env_file = [];
  show_version = false;
  scan_log_dir = [];
  verify_scan = [];
  replay = [];
}

abbrev pub coin : Token small
coin = record { name = codes "C"; symbol = codes "C"; decimals = 0; token_standard = tt }

abbrev pub both : RunPlan small (machine small one_hash)
both = record {
  sender = some payer;
  self = false;
  zts = tt;
  token = some coin;
  amount = some (pos 5);
  recipients = true ∷ false ∷ [];
  from = 1;
  to = 9;
  sending = true;
}

abbrev pub start : Session small (machine small one_hash)
start = record { world = fresh; scan_log = none }

abbrev key : Bytes
key = plan_key small (machine small one_hash) both (pos 5)

pub short_plan :
    (n : ℕ) (a : Bool) (h : Bool) (w : World small (machine small one_hash))
    → length (payment_line small (machine small one_hash) flags.journal_path key n a (pos 5) tt h w)
      < max_line
unfolding entry decimal_int decimal run_key run_preimage
short_plan n true true w = omega arith
short_plan n true false w = omega arith
short_plan n false true w = omega arith
short_plan n false false w = omega arith

pub empty_journal : IsReadable small (machine small one_hash) flags.journal_path key (some []) []
unfolding paid_in take_lines split_lines
empty_journal = record { whole = tt; reads = refl }

plan_and_send-IsPlanned_example :
    let q = plan_and_send small (machine small one_hash) 3 flags both start in
    IsPlanned small (machine small one_hash) 3 flags both (pos 5) [] fresh q.0 q.1.world
plan_and_send-IsPlanned_example =
    plan_and_send-IsPlanned small (machine small one_hash) small-IsLawful
      (machine-IsJson small one_hash) flags both coin (pos 5) short_plan 3 [] start refl refl
      empty_journal

sent_all : (plan_and_send small (machine small one_hash) 3 flags both start).0 ≡ ok tt
unfolding plan_and_send paid paid_in split_lines receive_all unreceived_blocks balance times find
    conclude open_journal send_out run visit pay send frontier frontier_account_block call
    call_ignoring post accept_frontier frontier_momentum submit pay_plasma with_plasma
    publish_raw_transaction record_payment append_line on_success rest_between same_bool run_key
    run_preimage estimate_plasma required_pow outcome same_text has_result read_envelope receive
sent_all = refl

unhindered :
    (a : Bool) (h : Bool) (e : Err)
    → (plan_and_send small (machine small one_hash) 3 flags both start).0
      ≢ err (journal_error small a h e)
unhindered a h e x = cc (x, sent_all)

-- what is left of the world behind a restart: the node and the disk
abbrev restarted : Session small (machine small one_hash)
restarted =
    let w = (plan_and_send small (machine small one_hash) 3 flags both start).1.world in
    record { world = record w { id = 0; last_hash = false }; scan_log = none }

plan_and_send-IsResumedPlan_example :
    IsResumedPlan small
      (machine small one_hash)
      flags
      both
      (pos 5)
      []
      (true ∷ false ∷ [])
      fresh
      (plan_and_send small (machine small one_hash) 3 flags both start).1.world
      (plan_and_send small (machine small one_hash) 3 flags both restarted).1.world
plan_and_send-IsResumedPlan_example =
    plan_and_send-IsResumedPlan small (machine small one_hash) small-IsLawful
      (machine-IsJson small one_hash) flags coin (pos 5) both short_plan 3 3 [] start restarted refl
      refl empty_journal unhindered (true ∷ false ∷ []) refl refl

plan_and_send-IsPaidOff_example :
    IsPaidOff small
      (machine small one_hash)
      flags.journal_path
      both
      (pos 5)
      []
      fresh
      (plan_and_send small (machine small one_hash) 3 flags both start).1.world
plan_and_send-IsPaidOff_example =
    plan_and_send-IsPaidOff small (machine small one_hash) small-IsLawful
      (machine-IsJson small one_hash) flags both coin (pos 5) short_plan 3 [] start refl refl
      empty_journal refl sent_all
