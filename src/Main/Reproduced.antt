-- ===== src/Main/Reproduced.antt =====
-- What a verification that succeeds says.
use mathlib.Core.List.{Permᴰ}
use zts_airdrop.Base.{◌≡◌, ◌⊎◌, inl, inr, List, Bool-cases, Result, Result-cases, ok, ◌∙◌, arith}
use zts_airdrop.Effect.{next}
use zts_airdrop.Main.Shell.{Shell, world_feed, node_of, new_client}
use zts_airdrop.Main.Verify.{judge, rescan, verify_scan}
use zts_airdrop.Options.{Options}
use zts_airdrop.Scan.{scan}
use zts_airdrop.ScanLog.{
  ScanLog, ScanResult, address_digest, address_strings, digest_text, read_scan_log,
}
use zts_airdrop.ScanLog.Digest.{IsCollision, perm_of_address_digest}
use zts_airdrop.Text.{same_text}
use zts_airdrop.Text.Laws.{same_text_sound}
use zts_airdrop.World.{Host, World}
use zts_airdrop.Zenon.{Zenon, IsLawful}

module _ (Z : Zenon) (H : Host Z) (Sh : Shell Z H) (lawful : IsLawful Z) where
  judge_sound :
      (l : ScanLog) (res : ScanResult Z)
      → judge Z l res ≡ ok tt
      → address_digest Z res.addresses ≡ l.digest
  unfolding judge
  judge_sound l res e = elim (Bool-cases (same_text (address_digest Z res.addresses) l.digest)) [
    | inl same ↦ same_text_sound (address_digest Z res.addresses) l.digest same
    | inr differ ↦ absurd (ground arith)
  ]

  -- the scan that a verification makes
  abbrev pub scan_again : Options → ScanLog → World Z H → Result (ScanResult Z) × World Z H
  scan_again o l w =
      scan Z (world_feed Z H) l.options.include_recipients l.range.from l.range.to
        (new_client Z H Sh (node_of Z H o l.node) w)

  rescanned :
      (o : Options) (l : ScanLog) (w : World Z H)
      → read_scan_log (Sh.read_file w.net) Sh.decode_scan_log o.verify_scan ≡ ok l
      → (verify_scan Z H Sh o w).0 ≡ ok tt
      → (next (λ res u. (judge Z l res, u)) (scan_again o l w)).0 ≡ ok tt
  unfolding verify_scan rescan
  rescanned o l w read e = rw (read, verify_scan) at e

  -- If -verify-scan reads a log whose digest is that of some recorded addresses, and returns
  -- no error, then the scan of the logged range that it made succeeded and found the recorded
  -- addresses, each as often, or else the two texts that were hashed are a SHA-256 collision.
  -- It assumes the documented behaviour of address texts.
  pub verify_scan_reproduces :
      (o : Options) (l : ScanLog) (recorded : List Z.Address) (w : World Z H)
      → read_scan_log (Sh.read_file w.net) Sh.decode_scan_log o.verify_scan ≡ ok l
      → l.digest ≡ address_digest Z recorded
      → (verify_scan Z H Sh o w).0 ≡ ok tt
      → (res : ScanResult Z) × ((scan_again o l w).0 ≡ ok res)
        × (Permᴰ res.addresses recorded
            ⊎ IsCollision Z
                (digest_text (address_strings Z res.addresses))
                (digest_text (address_strings Z recorded)))
  verify_scan_reproduces o l recorded w read same e = elim (Result-cases (scan_again o l w).0) [
    | inr (x, failed) ↦ absurd (let f = rw failed at (rescanned o l w read e) in ground arith)
    | inl (res, scanned) ↦ (
      res,
      scanned,
      perm_of_address_digest Z lawful res.addresses recorded
          (judge_sound l res (rw scanned at (rescanned o l w read e)) ∙ same),
    )
  ]
