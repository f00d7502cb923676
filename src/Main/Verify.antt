-- ===== src/Main/Verify.antt =====
-- main.go: a recorded scan is run again and compared.
use zts_airdrop.Base.{ℕ, [], ◌∷◌, Err, errorf, Result, ok, err, if◌then◌else◌}
use zts_airdrop.Decimal.{decimal}
use zts_airdrop.Effect.{M, next}
use zts_airdrop.Main.{insert_all, compare_lists}
use zts_airdrop.Main.Shell.{Shell, world_feed, node_of, new_client}
use zts_airdrop.Options.{Options}
use zts_airdrop.Scan.{scan}
use zts_airdrop.ScanLog.{ScanLog, ScanResult, read_scan_log, address_digest, address_strings}
use zts_airdrop.Text.{same_text}
use zts_airdrop.World.{Host, World}
use zts_airdrop.Zenon.{Zenon}

module _ (Z : Zenon) where
  abbrev pub not_reproduced : ℕ × ℕ → Err
  not_reproduced (added, absent) =
      errorf
        "NOT REPRODUCED: %d addresses now present that were not logged, %d logged that are now absent"
        (decimal added ∷ decimal absent ∷ [])

  -- the digest of the addresses found now against the logged one
  unfoldable pub judge : ScanLog → ScanResult Z → Result (Unit {0})
  unfolding same_text insert_all compare_lists
  judge logged res =
      if same_text (address_digest Z res.addresses) logged.digest
      then ok tt
      else err (
          not_reproduced
            (compare_lists (address_strings Z res.addresses) (insert_all logged.addresses [])))

  module _ (H : Host Z) (Sh : Shell Z H) where
    -- behind the reading of the log
    unfoldable pub rescan : Options → ScanLog → M (World Z H) (Unit {0})
    unfolding judge
    rescan o logged w =
        next (λ res w'. (judge logged res, w'))
          (scan Z (world_feed Z H) logged.options.include_recipients logged.range.from
            logged.range.to (new_client Z H Sh (node_of Z H o logged.node) w))

    -- `verifyScan`
    unfoldable pub verify_scan : Options → M (World Z H) (Unit {0})
    unfolding rescan
    verify_scan o w = elim (read_scan_log (Sh.read_file w.net) Sh.decode_scan_log o.verify_scan) [
      | err e ↦ (err e, w)
      | ok logged ↦ rescan o logged w
    ]
