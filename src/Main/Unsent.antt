-- ===== src/Main/Unsent.antt =====
-- Without -confirm, or with -dry-run, a command pays nobody.
use zts_airdrop.Amount.{parse_amount}
use zts_airdrop.Base.{
  ℕ, ◌≡◌, ◌⊎◌, inl, inr, Bool, true, false, List, [], Option, none, Bytes, wrapf, Result, ◌&&◌,
  ◌==◌, is_empty, arith, Bool-cases, Option-cases, Result-cases,
}
use zts_airdrop.Effect.{M, next, next_keeps, wrapping, lift}
use zts_airdrop.Ledger.{Momentum}
use zts_airdrop.Main.{is_sending}
use zts_airdrop.Main.Dry.{
  Still, scan-Still, frontier_momentum-Still, filter_by_holding-Still, new_client-Still,
  write_list-Still, find_sender-Still, verify_scan-Still,
}
use zts_airdrop.Main.Fresh.{
  Choice, choose, choose_amount, require, exclude_self, hold_enough, fresh_plan, launch, after_scan,
  scan_and_plan, run_fresh, run_command,
}
use zts_airdrop.Main.Rehearsal.{replay_scan-Hands}
use zts_airdrop.Main.Shell.{Shell, new_client, find_sender, world_feed}
use zts_airdrop.Options.{Options}
use zts_airdrop.Plan.{Session, on_world, plan_and_send}
use zts_airdrop.Plan.Dry.{plan_dry}
use zts_airdrop.Plan.Stages.{IsHanded, IsHanded-quiet, quiet-IsHanded}
use zts_airdrop.Rpc.{token_by_zts, frontier_momentum}
use zts_airdrop.Scan.{Range, range_at, scan}
use zts_airdrop.Sender.{Sender}
use zts_airdrop.Sender.Posts.{token_by_zts-IsQuiet, unmoved}
use zts_airdrop.World.{Host, World}
use zts_airdrop.Zenon.{Zenon}

module _ (Z : Zenon) (H : Host Z) (Sh : Shell Z H) (w : World Z H) (o : Options)
    (dry : is_sending o ≡ false) (apart : Sh.is_journal o.out_file ≡ false) where
  -- receives handed in at most, and the journal's file as it was
  abbrev Leaves : Session Z H → Type 0
  Leaves s = (k : List Z.Hash) × IsHanded Z H w k s.world

  -- a step that posts nothing, and the rest
  then-Leaves :
      {A B : Type 0} (f : A → M (Session Z H) B) (r : Result A × Session Z H)
      → Still Z H w r.1.world
      → ((a : A) → Leaves (f a r.1).1)
      → Leaves (next f r).1
  then-Leaves f r h k = next_keeps Leaves f r ([], h) k

  choose-Still : (v : World Z H) → Still Z H w v → Still Z H w (choose Z H o v).1
  unfolding choose
  choose-Still v h = elim (Bool-cases (is_empty o.zts_flag)) [
    | inl e ↦ rw (e, choose) h
    | inr e ↦ elim (Result-cases (Z.parse_zts o.zts_flag)) [
      | inr (x, bad) ↦ rw (e, bad, choose) h
      | inl (zts, good) ↦
          rw (e, good, choose)
            (let told = IsHanded-quiet Z H h (token_by_zts-IsQuiet Z H zts v) in
              next_keeps (Still Z H w) (λ token u. (choose_amount Z o zts token, u))
                (token_by_zts Z H zts v) told (λ token. told))
    ]
  ]

  chosen-Still :
      (v : World Z H)
      → Still Z H w v
      → Still Z H w (next (λ c. lift (require Z (is_sending o) c)) (choose Z H o v)).1
  chosen-Still v h =
      next_keeps (Still Z H w) (λ c. lift (require Z (is_sending o) c)) (choose Z H o v)
        (choose-Still v h) (λ c. choose-Still v h)

  hold_enough-Still :
      (c : Choice Z) (addrs : List Z.Address) (v : World Z H)
      → Still Z H w v
      → Still Z H w (hold_enough Z H o c addrs v).1
  unfolding hold_enough
  hold_enough-Still c addrs v h = elim (Bool-cases (is_empty o.min_holding_flag)) [
    | inl e ↦ rw (e, hold_enough) h
    | inr e ↦ elim (Option-cases c.token) [
      | inl n ↦ simp (e, n, hold_enough) h
      | inr (token, named) ↦ elim (Result-cases (parse_amount o.min_holding_flag token.decimals)) [
        | inr (x, bad) ↦ simp (e, named, bad, hold_enough) h
        | inl (floor, good) ↦
            simp (e, named, good, hold_enough) (filter_by_holding-Still Z H w c.zts floor addrs v h)
      ]
    ]
  ]

  launch-Leaves :
      (rounds : ℕ) (range : Range) (c : Choice Z) (sender : Option (Sender Z H))
      (recipients : List Z.Address) (s : Session Z H)
      → Still Z H w s.world
      → Leaves (launch Z H Sh rounds o range c sender recipients s).1
  unfolding launch fresh_plan
  launch-Leaves rounds range c sender recipients s h = elim (Bool-cases (is_empty recipients)) [
    | inl e ↦ rw (e, launch) ([], h)
    | inr e ↦
        rw (e, launch)
          (let listed = write_list-Still Z H w Sh recipients o.out_file s.world apart h in
            then-Leaves
              (λ _. plan_and_send Z H rounds o (fresh_plan Z H o range c sender recipients)) _
              listed
              (λ _.
                plan_dry Z H o (fresh_plan Z H o range c sender recipients) dry w rounds _ listed))
  ]

  after_scan-Leaves :
      (rounds : ℕ) (range : Range) (found : List Z.Address) (s : Session Z H)
      → Still Z H w s.world
      → Leaves (after_scan Z H Sh rounds o range found s).1
  unfolding after_scan
  after_scan-Leaves rounds range found s h = elim (Bool-cases o.list_only) [
    | inl e ↦ rw (e, after_scan) ([], write_list-Still Z H w Sh found o.out_file s.world apart h)
    | inr e ↦
        simp (e, after_scan)
          (let choosing =
              λ (v : World Z H). next (λ c. lift (require Z (is_sending o) c)) (choose Z H o v) in
            let chosen = chosen-Still s.world h in
            let v1 = (choosing s.world).1 in
            let r2 = find_sender Z H Sh (is_sending o) (λ tip. none) o v1 in
            let found_key = find_sender-Still Z H w Sh (is_sending o) (λ tip. none) o v1 chosen in
            then-Leaves _ (on_world Z H choosing s) chosen (λ c.
              then-Leaves _
                (on_world Z H (find_sender Z H Sh (is_sending o) (λ tip. none) o)
                  (record s { world = v1 }))
                found_key
                (λ sender.
                  let held = hold_enough-Still c (exclude_self Z H o sender found) r2.1 found_key in
                  then-Leaves (λ recipients. launch Z H Sh rounds o range c sender recipients)
                    (on_world Z H (hold_enough Z H o c (exclude_self Z H o sender found))
                      (record s { world = r2.1 }))
                    held (λ recipients. launch-Leaves rounds range c sender recipients _ held))))
  ]

  scan_and_plan-Leaves :
      (rounds : ℕ) (version : Bytes) (tip : Momentum Z) (range : Range) (s : Session Z H)
      → Still Z H w s.world
      → Leaves (scan_and_plan Z H Sh rounds version o tip range s).1
  unfolding scan_and_plan
  scan_and_plan-Leaves rounds version tip range s h =
      let asked = record s.world { net = (H.now s.world.net).1 } in
      let begun : Still Z H w asked = record { posted = h.posted; file_kept = h.file_kept } in
      let scanned = scan-Still Z H w o.include_recipients range.from range.to asked begun in
      then-Leaves _
        (on_world Z H (scan Z (world_feed Z H) o.include_recipients range.from range.to)
          (record s { world = asked }))
        scanned (λ res. after_scan-Leaves rounds range res.addresses _ scanned)

  run_fresh-Leaves : (rounds : ℕ) (version : Bytes) → Leaves (run_fresh Z H Sh rounds version o w).1
  unfolding run_fresh
  run_fresh-Leaves rounds version =
      let s : Session Z H = record { world = new_client Z H Sh o.node w; scan_log = none } in
      let begun : Still Z H w s.world =
        new_client-Still Z H w Sh o.node w (quiet-IsHanded Z H (unmoved Z H w)) in
      let met = frontier_momentum-Still Z H w (wrapf "reach node: %w" []) s.world begun in
      let r = on_world Z H (wrapping (wrapf "reach node: %w" []) (frontier_momentum Z H)) s in
      then-Leaves _ r met (λ tip.
        then-Leaves (λ range. scan_and_plan Z H Sh rounds version o tip range)
          (lift (range_at tip.height o.from o.last o.to) r.1) met
          (λ range. scan_and_plan-Leaves rounds version tip range r.1 met))

  unsent :
      (rounds : ℕ) (version : Bytes) (no_args : Bool)
      → Leaves (run_command Z H Sh rounds version no_args o w).1
  unfolding run_command
  unsent rounds version no_args =
      let begun = quiet-IsHanded Z H (unmoved Z H w) in
      elim (Bool-cases (is_empty o.verify_scan)) [
        | inr verifying ↦ rw (verifying, run_command) ([], verify_scan-Still Z H w Sh o w begun)
        | inl scanning ↦ elim (Bool-cases (is_empty o.replay)) [
          | inr replaying ↦
              rw (scanning, replaying, run_command)
                (replay_scan-Hands Z H Sh w o dry apart rounds w begun)
          | inl fresh ↦
              elim (Bool-cases (no_args && is_empty o.zts_flag && o.last == 0 && o.from == 0)) [
                | inl idle ↦ rw (scanning, fresh, idle, run_command) ([], begun)
                | inr busy ↦
                    rw (scanning, fresh, busy, run_command) (run_fresh-Leaves rounds version)
              ]
        ]
      ]

module _ (Z : Zenon) (H : Host Z) (Sh : Shell Z H) where
  not_sending : (o : Options) → (o.confirm ≡ false) ⊎ (o.dry_run ≡ true) → is_sending o ≡ false
  not_sending o h = ground arith

  -- A command without -confirm or with -dry-run, be it a verification, a replay or a scan,
  -- whatever the node, the disk and the other flags say, posts no block but receives, each to
  -- the zero address and of no amount, and leaves the journal's file as it was. It assumes
  -- that -out does not name the journal's file. The deferred write of the scan log is not part
  -- of it.
  pub run_command_pays_nobody :
      (rounds : ℕ) (version : Bytes) (no_args : Bool) (o : Options) (w : World Z H)
      → (o.confirm ≡ false) ⊎ (o.dry_run ≡ true)
      → Sh.is_journal o.out_file ≡ false
      → let q = run_command Z H Sh rounds version no_args o w in
        (k : List Z.Hash) × IsHanded Z H w k q.1.world
  run_command_pays_nobody rounds version no_args o w h apart =
      unsent Z H Sh w o (not_sending o h) apart rounds version no_args
