-- ===== src/Plan/Planned.antt =====
-- What a plan does to the world from end to end.
use zts_airdrop.Base.{
  ℕ, ◌<◌, ◌≡◌, refl, true, List, [], Option, some, ℤ, times, ok, err, arith, length,
}
use zts_airdrop.Effect.{next, next_cases}
use zts_airdrop.Journal.{PaidMap, max_line, paid}
use zts_airdrop.Journal.ReadBack.{IsJson}
use zts_airdrop.Journal.Recorded.{payment_line}
use zts_airdrop.Ledger.{Token}
use zts_airdrop.Options.{Options}
use zts_airdrop.Plan.{
  RunPlan, Session, on_world, outstanding, annotate, collect, afford, send_out, conclude, priced,
  plan_and_send,
}
use zts_airdrop.Plan.Outcome.{
  plan_key, IsBacked, IsPlanned, gathered, Plans, halted, conclude-IsPlanned,
}
use zts_airdrop.Plan.Stages.{
  outstanding_lem, IsHanded, IsHanded-quiet, IsHanded-on, quiet-IsHanded, collect-IsHanded,
  afford-IsQuiet, afford-IsFunded, annotate_world, IsReadable, paid_reads, paid-IsQuiet,
}
use zts_airdrop.Sender.{Sender}
use zts_airdrop.World.{Host, World}
use zts_airdrop.Zenon.{Zenon, IsLawful}

module _ (Z : Zenon) (H : Host Z) where
  module _ (lawful : IsLawful Z) (json : IsJson Z H) (o : Options) (p : RunPlan Z H)
      (token : Token Z) (amount : ℤ)
      (short : (n : ℕ) (a : Z.Address) (h : Z.Hash) (w : World Z H)
        → length (payment_line Z H o.journal_path (plan_key Z H p amount) n a amount p.zts h w)
          < max_line)
      (rounds : ℕ) (m : PaidMap Z) (w : World Z H) where
    module _ (readable : IsReadable Z H o.journal_path (plan_key Z H p amount) w.file m) where
      IsBacked-by :
          {k : List Z.Hash} (v : World Z H) (sender : Option (Sender Z H))
          → v ≡ gathered Z H rounds o p amount m w
          → IsHanded Z H w k v
          → (afford Z H p token (times amount (outstanding Z H m p.recipients)) sender v).0 ≡ ok tt
          → p.sending ≡ true
          → (x : Sender Z H) → sender ≡ some x
          → IsBacked Z H rounds o p amount m w k
      IsBacked-by v sender here handed e sending x same = record {
        handed = rw here at handed;
        funded =
            rw (outstanding_lem Z m p.recipients H, here) at
              (afford-IsFunded Z H p token (times amount (outstanding Z H m p.recipients)) x v
                sending (rw same at e));
      }

      priced-IsPlanned :
          (s : Session Z H)
          → s.world ≡ (paid Z H o.journal_path (plan_key Z H p amount) w).1
          → IsHanded Z H w [] s.world
          → Plans Z H lawful json o p token amount short rounds m w
              (priced Z H rounds o p token amount (plan_key Z H p amount) m s)
      unfolding priced
      priced-IsPlanned s begun handed =
          let s' = annotate Z H o p token amount (plan_key Z H p amount) (length m) s in
          let needed = times amount (outstanding Z H m p.recipients) in
          let (k, took) = collect-IsHanded Z H rounds o p.sender s'.world in
          let taken : IsHanded Z H w k (collect Z H rounds o p.sender s'.world).1 =
            IsHanded-on Z H
              (rw (annotate_world Z H o p token amount (plan_key Z H p amount) (length m) s) handed)
              took in
          next_cases (Plans Z H lawful json o p token amount short rounds m w)
            (λ _ t.
              next (λ _. conclude Z H o p amount (plan_key Z H p amount) m)
                (on_world Z H (afford Z H p token needed p.sender) t))
            (on_world Z H (collect Z H rounds o p.sender) s')
            (λ e failed.
              halted Z H lawful json o p token amount short rounds m w readable k (err e) taken
                (λ _ same. absurd (ground arith)))
            (λ _ went.
              let v = (collect Z H rounds o p.sender s'.world).1 in
              let here : v ≡ gathered Z H rounds o p amount m w =
                rw (annotate_world Z H o p token amount (plan_key Z H p amount) (length m) s, begun)
                  refl in
              let same = IsHanded-quiet Z H taken (afford-IsQuiet Z H p token needed p.sender v) in
              next_cases (Plans Z H lawful json o p token amount short rounds m w)
                (λ _. conclude Z H o p amount (plan_key Z H p amount) m)
                (on_world Z H (afford Z H p token needed p.sender) (record s' { world = v }))
                (λ e failed.
                  halted Z H lawful json o p token amount short rounds m w readable k (err e) same
                    (λ _ same. absurd (ground arith)))
                (λ _ afforded.
                  conclude-IsPlanned Z H lawful json o p token amount short rounds m w readable _
                    same (λ sending x e. IsBacked-by v p.sender here taken afforded sending x e)))

  pub plan_and_send_lem :
      (rounds : ℕ) (o : Options) (p : RunPlan Z H) (s : Session Z H) {token : Token Z} {amount : ℤ}
      → p.token ≡ some token
      → p.amount ≡ some amount
      → plan_and_send Z H rounds o p s ≡ (
          next
            (λ already. priced Z H rounds o p token amount (plan_key Z H p amount) already)
            (on_world Z H (paid Z H o.journal_path (plan_key Z H p amount)) s))
  unfolding plan_and_send conclude send_out
  plan_and_send_lem rounds o p s named valued = rw (named, valued) refl

  module _ (lawful : IsLawful Z) (json : IsJson Z H) (o : Options) (p : RunPlan Z H)
      (token : Token Z) (amount : ℤ)
      (short : (n : ℕ) (a : Z.Address) (h : Z.Hash) (w : World Z H)
        → length (payment_line Z H o.journal_path (plan_key Z H p amount) n a amount p.zts h w)
          < max_line) where
    -- PlanAndSend for a token and an amount, over a journal that is missing or ends in a whole
    -- line and that Paid reads as some map, whatever fails: it posts receives, then one
    -- payment of the amount of the token for each of some of the recipients that the map does
    -- not name, in their order, and nothing else; no payment unless the plan sends, and none
    -- unless the node reported, in the state behind the receives, a balance of the amount for
    -- every such recipient; what is recorded was posted, and Paid then reads the map with it
    -- added, unless a journal write failed; and if the plan sends and returns no error then a
    -- payment is recorded for as many as were unpaid. It assumes the documented behaviour of
    -- JSON and of address texts, and that the lines are shorter than the scanner's buffer.
    pub plan_and_send-IsPlanned :
        (rounds : ℕ) (m : PaidMap Z) (s : Session Z H)
        → p.token ≡ some token
        → p.amount ≡ some amount
        → IsReadable Z H o.journal_path (plan_key Z H p amount) s.world.file m
        → let q = plan_and_send Z H rounds o p s in
          IsPlanned Z H rounds o p amount m s.world q.0 q.1.world
    plan_and_send-IsPlanned rounds m s named valued readable =
        let key = plan_key Z H p amount in
        let reading = quiet-IsHanded Z H (paid-IsQuiet Z H o.journal_path key s.world) in
        rw (plan_and_send_lem rounds o p s named valued) (
          next_cases (Plans Z H lawful json o p token amount short rounds m s.world)
            (λ already. priced Z H rounds o p token amount key already)
            (on_world Z H (paid Z H o.journal_path key) s)
            (λ e failed.
              halted Z H lawful json o p token amount short rounds m s.world readable [] (err e)
                reading (λ _ same. absurd (ground arith)))
            (λ already read. rw (paid_reads Z H o.journal_path key m s.world readable read) (
              priced-IsPlanned lawful json o p token amount short rounds m s.world readable _ refl
                reading)))
