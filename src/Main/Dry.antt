-- ===== src/Main/Dry.antt =====
-- A command that is not to send.
use zts_airdrop.Base.{
  ℕ, ◌≡◌, false, inl, inr, Bool, List, [], ◌∷◌, Option, Bytes, Err, wrapf, ℤ, is_empty, Bool-cases,
  Option-cases, Result-cases,
}
use zts_airdrop.Effect.{next_keeps, wrap_keeps, wrapping}
use zts_airdrop.Ledger.{Momentum}
use zts_airdrop.Main.{key_source, filter_by_holding}
use zts_airdrop.Main.Shell.{
  Shell, world_feed, node_of, new_client, write_list, meet_node, find_sender,
}
use zts_airdrop.Main.Verify.{rescan, verify_scan, judge}
use zts_airdrop.Options.{Options}
use zts_airdrop.Plan.Stages.{IsHanded, IsHanded-quiet}
use zts_airdrop.Rpc.{balance, frontier_momentum}
use zts_airdrop.Scan.{scan}
use zts_airdrop.Scan.Keeps.{scan_keeps}
use zts_airdrop.ScanLog.{read_scan_log}
use zts_airdrop.Sender.Posts.{
  balance-IsQuiet, frontier_momentum-IsQuiet, momentums_by_height-IsQuiet,
  detailed_momentums_by_height-IsQuiet,
}
use zts_airdrop.Wallet.{load_key}
use zts_airdrop.World.{Host, World}
use zts_airdrop.Zenon.{Zenon}

module _ (Z : Zenon) (H : Host Z) (w : World Z H) where
  -- no block posted since, and the journal's file as it was
  abbrev pub Still : World Z H → Type 0
  Still v = IsHanded Z H w [] v

  pub scan-Still :
      (include_recipients : Bool) (from to : ℕ) (v : World Z H)
      → Still v
      → Still (scan Z (world_feed Z H) include_recipients from to v).1
  scan-Still include_recipients from to v h =
      scan_keeps Z (world_feed Z H) include_recipients Still
        (λ v h. record { posted = h.posted; file_kept = h.file_kept })
        (λ v h. record { posted = h.posted; file_kept = h.file_kept })
        (λ height count v h. IsHanded-quiet Z H h (momentums_by_height-IsQuiet Z H height count v))
        (λ height count v h.
          IsHanded-quiet Z H h (detailed_momentums_by_height-IsQuiet Z H height count v))
        from to v h

  pub frontier_momentum-Still :
      (f : Err → Err) (v : World Z H) → Still v → Still (wrapping f (frontier_momentum Z H) v).1
  frontier_momentum-Still f v h =
      wrap_keeps Still f (frontier_momentum Z H v)
        (IsHanded-quiet Z H h (frontier_momentum-IsQuiet Z H v))

  pub filter_by_holding-Still :
      (zts : Z.Zts) (floor : ℤ) (addrs : List Z.Address) (v : World Z H)
      → Still v
      → Still (filter_by_holding Z H zts floor addrs v).1
  unfolding filter_by_holding
  filter_by_holding-Still zts floor [] v h = h
  filter_by_holding-Still zts floor (a ∷ rest) v h =
      let asked = record v { net = (H.is_done v.net).1 } in
      let kept : Still asked = record { posted = h.posted; file_kept = h.file_kept } in
      let answered = IsHanded-quiet Z H kept (balance-IsQuiet Z H a zts asked) in
      elim (Bool-cases (H.is_done v.net).0) [
        | inl ended ↦ rw (ended, filter_by_holding) kept
        | inr going ↦ elim (Result-cases (balance Z H a zts asked).0) [
          | inr (e, failed) ↦ rw (going, failed, filter_by_holding) answered
          | inl (held, told) ↦
              rw (going, told, filter_by_holding)
                (next_keeps Still _
                  (filter_by_holding Z H zts floor rest (balance Z H a zts asked).1)
                  (filter_by_holding-Still zts floor rest _ answered)
                  (λ kept. filter_by_holding-Still zts floor rest _ answered))
        ]
      ]

  module _ (Sh : Shell Z H) where
    pub new_client-Still :
        (node : Bytes) (v : World Z H) → Still v → Still (new_client Z H Sh node v)
    unfolding new_client
    new_client-Still node v h = record { posted = h.posted; file_kept = h.file_kept }

    pub write_list-Still :
        (addrs : List Z.Address) (path : Bytes) (v : World Z H)
        → Sh.is_journal path ≡ false
        → Still v
        → Still (write_list Z H Sh addrs path v).1
    unfolding write_list
    write_list-Still addrs path v apart h = elim (Bool-cases (is_empty path)) [
      | inl e ↦ rw (e, write_list) h
      | inr e ↦ rw (e, apart, write_list) (record { posted = h.posted; file_kept = h.file_kept })
    ]

    meet_node-Still :
        (refuses : Momentum Z → Option Err) (key : H.Key) (v : World Z H)
        → Still v
        → Still (meet_node Z H Sh refuses key v).1
    unfolding meet_node
    meet_node-Still refuses key v h =
        let met = frontier_momentum-Still (wrapf "reach node: %w" []) v h in
        next_keeps Still _ (wrapping (wrapf "reach node: %w" []) (frontier_momentum Z H) v) met
          (λ tip. elim (Option-cases (refuses tip)) [
            | inl n ↦ rw n (record { posted = met.posted; file_kept = met.file_kept })
            | inr (e, refused) ↦ rw refused met
          ])

    pub find_sender-Still :
        (sending : Bool) (refuses : Momentum Z → Option Err) (o : Options) (v : World Z H)
        → Still v
        → Still (find_sender Z H Sh sending refuses o v).1
    unfolding find_sender
    find_sender-Still sending refuses o v h =
        elim (Result-cases (key_source (Sh.read_file v.net) Sh.lookup_env o)) [
          | inr (e, failed) ↦ elim (Bool-cases sending) [
            | inl s ↦ rw (failed, s, find_sender) h
            | inr s ↦ rw (failed, s, find_sender) h
          ]
          | inl (src, chosen) ↦ elim (Result-cases (load_key Sh.wallet src)) [
            | inr (e, failed) ↦ rw (chosen, failed, find_sender) h
            | inl (key, loaded) ↦
                rw (chosen, loaded, find_sender)
                  (next_keeps Still _ (meet_node Z H Sh refuses key v)
                    (meet_node-Still refuses key v h) (λ s. meet_node-Still refuses key v h))
          ]
        ]

    pub verify_scan-Still :
        (o : Options) (v : World Z H) → Still v → Still (verify_scan Z H Sh o v).1
    unfolding verify_scan rescan
    verify_scan-Still o v h =
        elim (Result-cases (read_scan_log (Sh.read_file v.net) Sh.decode_scan_log o.verify_scan)) [
          | inr (e, failed) ↦ rw (failed, verify_scan) h
          | inl (l, read) ↦
              rw (read, verify_scan)
                (let started = new_client-Still (node_of Z H o l.node) v h in
                  let scanned =
                    scan-Still l.options.include_recipients l.range.from l.range.to _ started in
                  next_keeps Still (λ res u. (judge Z l res, u))
                    (scan Z (world_feed Z H) l.options.include_recipients l.range.from l.range.to
                      (new_client Z H Sh (node_of Z H o l.node) v))
                    scanned (λ res. scanned))
        ]
