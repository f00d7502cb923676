-- ===== src/Examples/Commands.antt =====
-- The commands over the small chain.
use mathlib.Core.List.{Memᴰ, Permᴰ}
use zts_airdrop.Rpc.{
  publish_raw_transaction, frontier_account_block, balance, token_by_zts, required_pow,
  unreceived_blocks, frontier_momentum, momentums_by_height, call, call_ignoring, post, has_result,
  read_envelope,
}
use zts_airdrop.Sender.{pay_plasma, submit, accept_frontier, frontier, receive, estimate_plasma}
use zts_airdrop.Journal.{find, run_preimage, run_key, split_lines, paid_in, paid}
use zts_airdrop.Amount.{parse_amount, parse_clean, clean, fit_places, scale_digits}
use zts_airdrop.Plan.{conclude, plan_and_send, noted}
use zts_airdrop.Sender.Receiving.{receive_all}
use zts_airdrop.Decimal.{set_string}
use zts_airdrop.Text.{remove, trim_space, has_prefix, cut, same_text}
use zts_airdrop.Main.Shell.{write_list, meet_node, find_sender, Shell, new_client, node_of}
use zts_airdrop.Wallet.{from_mnemonic, load_key, Wallet}
use zts_airdrop.Main.{key_source, without, filter_by_holding}
use zts_airdrop.Replay.{
  check_digest, parse_list, replay_source, source_of, replay_list, replay_amount,
}
use zts_airdrop.Base.{
  times, List, Bool, ℕ, ◌≡◌, ◌≢◌, ◌⊎◌, ◌↔◌, inr, refl, true, false, [], ◌∷◌, none, some, codes, pos,
  ok,
}
use zts_airdrop.Examples.Machine.{machine}
use zts_airdrop.Examples.Paying.{small, small-IsLawful, one_hash, fresh, same_bool}
use zts_airdrop.Examples.Plans.{flags, coin, both}
use zts_airdrop.Examples.Scan.{written}
use zts_airdrop.Main.Filters.{without_iff, Sifted, filter_by_holding-Sifted}
use zts_airdrop.Main.Fresh.{run_command}
use zts_airdrop.Main.Reproduced.{scan_again, verify_scan_reproduces}
use zts_airdrop.Main.Resend.{
  wrong_chain, replay_scan, replay_to, replay_sized, replay_plan, check_journal,
}
use zts_airdrop.Main.Unsent.{run_command_pays_nobody}
use zts_airdrop.Main.Verify.{verify_scan, judge}
use zts_airdrop.Options.{Options}
use zts_airdrop.Plan.Outcome.{plan_key}
use zts_airdrop.Plan.Stages.{IsHanded}
use zts_airdrop.ScanLog.{
  ScanLog, ScanResult, read_scan_log, address_digest, address_strings, digest_text, new_scan_log,
}
use zts_airdrop.ScanLog.Digest.{IsCollision}
use zts_airdrop.Scan.{scan, scan_loop, result_of, fetch, take_momentums, take_blocks}
use zts_airdrop.Sort.{sort_by}
use zts_airdrop.World.{Host}

abbrev node : Host small
node = machine small one_hash

abbrev any_wallet : Wallet ℕ
any_wallet = record {
  KeyFile = Unit;
  KeyStore = Unit;
  is_mnemonic_valid = λ m. true;
  new_seed = λ m p. m;
  derive_for_path = λ p s. ok 1;
  read_key_file = λ p. ok tt;
  decrypt = λ f p. ok tt;
  derive_for_index_path = λ s i. ok 1;
}

-- a log of a scan of the momentum 8, where nobody acted
abbrev quiet_log : ScanLog
quiet_log = record written {
  range = record { from = 8; to = 8; count = 1; named_by = [] };
  digest = [];
  addresses = [];
}

abbrev shell : Shell small node
shell = record {
  read_file = λ n path. ok path;
  write_file = λ path text n. ((none, some text), n);
  is_journal = same_text flags.journal_path;
  lookup_env = λ name. none;
  wallet = any_wallet;
  decode_scan_log = λ raw. ok quiet_log;
  connect = λ url n. n;
}

-- a replay of a log that lists one address, with its pending blocks received first
abbrev listed_log : ScanLog
listed_log = record written {
  range = record { from = 1; to = 9; count = 9; named_by = [] };
  node = [];
  chain = 1;
  digest = address_digest small (true ∷ []);
  addresses = codes "t" ∷ [];
}

abbrev replaying : Shell small node
replaying = record shell { decode_scan_log = λ raw. ok listed_log }

abbrev rehearsal : Options
rehearsal = record flags { dry_run = true; replay = codes "log.json" }

not_replaced : replaying.is_journal [] ≡ false
unfolding same_text
not_replaced = refl

-- it runs to its end
rehearsed : (run_command small node replaying 3 (codes "dev") false rehearsal fresh).0 ≡ ok tt
unfolding run_command replay_scan read_scan_log new_scan_log replay_list source_of replay_source
    parse_list check_digest address_digest digest_text sort_by replay_to node_of replay_amount
    replay_sized replay_plan find_sender key_source load_key from_mnemonic meet_node check_journal
    write_list plan_and_send paid paid_in split_lines receive_all unreceived_blocks balance times
    conclude estimate_plasma required_pow token_by_zts new_client call call_ignoring post has_result
    read_envelope same_text frontier_momentum parse_amount run_key run_preimage find same_bool
    parse_clean clean remove trim_space has_prefix fit_places cut scale_digits set_string
    wrong_chain receive frontier frontier_account_block accept_frontier submit pay_plasma
    publish_raw_transaction
rehearsed = refl

abbrev checking : Options
checking = record flags { verify_scan = codes "log.json" }

run_command_pays_nobody_example :
    (k : List Bool) × IsHanded small node fresh k
      (run_command small node replaying 3 (codes "dev") false rehearsal fresh).1.world
run_command_pays_nobody_example =
    run_command_pays_nobody small node replaying 3 (codes "dev") false rehearsal fresh (inr refl)
      not_replaced

without_iff_example :
    Memᴰ false (without small true (true ∷ false ∷ []))
    ↔ (Memᴰ false (true ∷ false ∷ []) × (false ≢ true))
without_iff_example = without_iff small true (true ∷ false ∷ []) false

both_hold :
    (filter_by_holding small node tt (pos 50) (true ∷ false ∷ []) fresh).0 ≡ ok (true ∷ false ∷ [])
unfolding filter_by_holding balance call call_ignoring post same_text has_result read_envelope
both_hold = refl

filter_by_holding-Sifted_example :
    Sifted small node tt (pos 50) (true ∷ false ∷ []) (true ∷ false ∷ [])
filter_by_holding-Sifted_example =
    filter_by_holding-Sifted small node tt (pos 50) (true ∷ false ∷ []) (true ∷ false ∷ []) fresh
      both_hold

log_read :
    read_scan_log (shell.read_file fresh.net) shell.decode_scan_log checking.verify_scan
    ≡ ok quiet_log
unfolding read_scan_log new_scan_log
log_read = refl

no_digest : quiet_log.digest ≡ address_digest small []
unfolding address_digest digest_text sort_by
no_digest = refl

reproduced : (verify_scan small node shell checking fresh).0 ≡ ok tt
unfolding verify_scan read_scan_log new_scan_log judge address_digest digest_text sort_by scan
    scan_loop result_of fetch momentums_by_height call call_ignoring post has_result read_envelope
    same_text take_momentums take_blocks new_client
reproduced = refl

verify_scan_reproduces_example :
    (res : ScanResult small) × ((scan_again small node shell small-IsLawful checking quiet_log
        fresh).0
      ≡ ok res)
    × (Permᴰ res.addresses []
        ⊎ IsCollision small
            (digest_text (address_strings small res.addresses))
            (digest_text (address_strings small [])))
verify_scan_reproduces_example =
    verify_scan_reproduces small node shell small-IsLawful checking quiet_log [] fresh log_read
      no_digest reproduced

abbrev again : Options
again = record flags { zts_flag = []; amount = []; replay = codes "log.json" }

-- the log of the plan `both`, as planAndSend fills it in
abbrev noted_log : ScanLog
noted_log =
    noted small node flags both coin (pos 5) (plan_key small node both (pos 5)) 0
      (record quiet_log { range = record { from = 1; to = 9; count = 9; named_by = [] } })
