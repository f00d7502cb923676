-- ===== src/Main/Original.antt =====
-- A replay of a run's own log takes up that run.
use mathlib.Core.List.{Sublistᴰ}
use mathlib.Core.List.Sublistᴰ
use zts_airdrop.Airdrop.Trace.{unpaid}
use zts_airdrop.Base.{ℕ, ◌<◌, ◌≡◌, List, ◌++◌, map, ℤ, false, length}
use zts_airdrop.Journal.{PaidMap, max_line}
use zts_airdrop.Journal.ReadBack.{IsJson}
use zts_airdrop.Journal.Recorded.{payment_line}
use zts_airdrop.Ledger.{Token}
use zts_airdrop.Main.Shell.{Shell}
use zts_airdrop.Options.{Options}
use zts_airdrop.Plan.{RunPlan}
use zts_airdrop.Plan.Outcome.{plan_key}
use zts_airdrop.Plan.Stages.{IsReadable}
use zts_airdrop.ScanLog.{ScanLog}
use zts_airdrop.Sender.{Sender}
use zts_airdrop.Sender.Posts.{paying, taking, payments}
use zts_airdrop.World.{Host, World}
use zts_airdrop.Zenon.{Zenon, IsLawful}

module _ (Z : Zenon) (H : Host Z) where
  -- receives, and then payments of a run to some of the recipients that its map does not name
  pub record IsTakenUp (p : RunPlan Z H) (amount : ℤ) (m : PaidMap Z) (recipients : List Z.Address)
      (w v : World Z H) : Type 0 where
    pub collected : List Z.Hash
    pub tried : List Z.Address
    pub posted :
        payments Z v.posted
        ≡ payments Z w.posted ++ (map (taking Z) collected ++ map (paying Z amount p.zts) tried)
    pub in_order : Sublistᴰ tried (unpaid Z m recipients)

  module _ (Sh : Shell Z H) (lawful : IsLawful Z) (json : IsJson Z H) (again : Options)
      (p : RunPlan Z H) (token : Token Z) (amount : ℤ)
      (short : (n : ℕ) (a : Z.Address) (h : Z.Hash) (w : World Z H)
        → length (payment_line Z H again.journal_path (plan_key Z H p amount) n a amount p.zts h w)
          < max_line)
      (apart : Sh.is_journal again.out_file ≡ false) (rounds : ℕ) (m : PaidMap Z) (w : World Z H)
      (readable : IsReadable Z H again.journal_path (plan_key Z H p amount) w.file m)
      (recipients : List Z.Address) where
    abbrev TakesUp : World Z H → Type 0
    TakesUp v = IsTakenUp p amount m recipients w v
