-- ===== src/Main/Rehearsal.antt =====
-- A replay that is not to send.
use zts_airdrop.Base.{
  ℕ, ◌≡◌, inl, inr, false, List, [], none, Bytes, ℤ, Result, ok, is_empty, Bool-cases, Result-cases,
}
use zts_airdrop.Effect.{M, next, next_keeps}
use zts_airdrop.Journal.{run_key, paid}
use zts_airdrop.Ledger.{Token}
use zts_airdrop.Main.{is_sending}
use zts_airdrop.Main.Dry.{Still, new_client-Still, write_list-Still, find_sender-Still}
use zts_airdrop.Main.Resend.{
  token_text, logged_amount, was_published, wrong_chain, replay_plan, check_journal, replay_sized,
  replay_to, replay_scan,
}
use zts_airdrop.Main.Shell.{Shell, node_of, new_client, write_list, find_sender}
use zts_airdrop.Options.{Options}
use zts_airdrop.Plan.Dry.{plan_dry}
use zts_airdrop.Plan.Stages.{IsHanded, IsHanded-quiet, paid-IsQuiet}
use zts_airdrop.Replay.{replay_amount, replay_list}
use zts_airdrop.Rpc.{token_by_zts}
use zts_airdrop.ScanLog.{ScanLog, read_scan_log}
use zts_airdrop.Sender.Posts.{token_by_zts-IsQuiet}
use zts_airdrop.World.{Host, World}
use zts_airdrop.Zenon.{Zenon}

module _ (Z : Zenon) (H : Host Z) (Sh : Shell Z H) (w : World Z H) (o : Options) where
  pub check_journal-Still :
      (l : ScanLog) (zts : Z.Zts) (amount : ℤ) (v : World Z H)
      → Still Z H w v
      → Still Z H w (check_journal Z H Sh o l zts amount v).1
  unfolding check_journal
  check_journal-Still l zts amount v h =
      let key = run_key Z zts amount l.range.from l.range.to in
      let read = IsHanded-quiet Z H h (paid-IsQuiet Z H o.journal_path key v) in
      elim (Bool-cases (was_published l)) [
        | inl e ↦
            rw (e, check_journal)
              (next_keeps (Still Z H w) (λ m u. (ok tt, u)) (paid Z H o.journal_path key v) read
                (λ m. read))
        | inr e ↦ rw (e, check_journal) h
      ]

module _ (Z : Zenon) (H : Host Z) (Sh : Shell Z H) (w : World Z H) (o : Options)
    (dry : is_sending o ≡ false) (apart : Sh.is_journal o.out_file ≡ false) where
  -- receives handed in at most, and the journal's file as it was
  abbrev pub Hands : World Z H → Type 0
  Hands v = (k : List Z.Hash) × IsHanded Z H w k v

  -- a step that posts nothing, and the rest
  then-Hands :
      {A B : Type 0} (f : A → M (World Z H) B) (r : Result A × World Z H)
      → Still Z H w r.1
      → ((a : A) → Hands (f a r.1).1)
      → Hands (next f r).1
  then-Hands f r h k = next_keeps Hands f r ([], h) k

  replay_sized-Hands :
      (rounds : ℕ) (l : ScanLog) (node : Bytes) (recipients : List Z.Address) (zts : Z.Zts)
      (token : Token Z) (amount : ℤ) (v : World Z H)
      → Still Z H w v
      → Hands (replay_sized Z H Sh rounds o l node recipients zts token amount v).1
  unfolding replay_sized replay_plan
  replay_sized-Hands rounds l node recipients zts token amount v h =
      let found = find_sender-Still Z H w Sh (is_sending o) (wrong_chain Z l node) o v h in
      let v1 = (find_sender Z H Sh (is_sending o) (wrong_chain Z l node) o v).1 in
      let checked = check_journal-Still Z H Sh w o l zts amount v1 found in
      let v2 = (check_journal Z H Sh o l zts amount v1).1 in
      let listed = write_list-Still Z H w Sh recipients o.out_file v2 apart checked in
      let v3 = (write_list Z H Sh recipients o.out_file v2).1 in
      then-Hands _ (find_sender Z H Sh (is_sending o) (wrong_chain Z l node) o v) found (λ sender.
        then-Hands _ (check_journal Z H Sh o l zts amount v1) checked (λ _.
          then-Hands _ (write_list Z H Sh recipients o.out_file v2) listed (λ _.
            plan_dry Z H o (replay_plan Z H Sh o l recipients zts token amount sender) dry w rounds
              (record { world = v3; scan_log = none }) listed)))

  replay_to-Hands :
      (rounds : ℕ) (l : ScanLog) (recipients : List Z.Address) (v : World Z H)
      → Still Z H w v
      → Hands (replay_to Z H Sh rounds o l recipients v).1
  unfolding replay_to
  replay_to-Hands rounds l recipients v h =
      let node = node_of Z H o l.node in
      let at_node = new_client Z H Sh node v in
      let moved = new_client-Still Z H w Sh node v h in
      elim (Bool-cases (is_empty (token_text o l))) [
        | inl e ↦ rw (e, replay_to) ([], moved)
        | inr e ↦ elim (Result-cases (Z.parse_zts (token_text o l))) [
          | inr (x, bad) ↦ rw (e, bad, replay_to) ([], moved)
          | inl (zts, good) ↦
              rw (e, good, replay_to)
                (let told = IsHanded-quiet Z H moved (token_by_zts-IsQuiet Z H zts at_node) in
                  then-Hands _ (token_by_zts Z H zts at_node) told (λ token.
                    elim (Result-cases
                      (replay_amount o.replay o.amount (logged_amount l) token.decimals)) [
                        | inr (x, bad) ↦ rw bad ([], told)
                        | inl (amount, fine) ↦
                            rw fine
                              (replay_sized-Hands rounds l node recipients zts token amount _ told)
                      ]))
        ]
      ]

  pub replay_scan-Hands :
      (rounds : ℕ) (v : World Z H) → Still Z H w v → Hands (replay_scan Z H Sh rounds o v).1
  unfolding replay_scan
  replay_scan-Hands rounds v h =
      elim (Result-cases (read_scan_log (Sh.read_file v.net) Sh.decode_scan_log o.replay)) [
        | inr (e, failed) ↦ rw (failed, replay_scan) ([], h)
        | inl (l, read) ↦ elim (Result-cases (replay_list Z l)) [
          | inr (e, failed) ↦ rw (read, failed, replay_scan) ([], h)
          | inl (list, fine) ↦
              rw (read, fine, replay_scan) (replay_to-Hands rounds l list.addresses v h)
        ]
      ]
