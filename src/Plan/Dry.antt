-- ===== src/Plan/Dry.antt =====
-- A plan that does not send.
use zts_airdrop.Base.{
  ℕ, ◌≡◌, refl, ◌⊎◌, false, List, [], none, Bytes, ℤ, times, length, Option-cases, inl, inr, arith,
}
use zts_airdrop.Effect.{next, next_cases}
use zts_airdrop.Journal.{PaidMap, paid}
use zts_airdrop.Ledger.{Token}
use zts_airdrop.Options.{Options}
use zts_airdrop.Plan.{
  RunPlan, Session, on_world, outstanding, annotate, collect, afford, conclude, priced,
  plan_and_send,
}
use zts_airdrop.Plan.Outcome.{plan_key}
use zts_airdrop.Plan.Planned.{plan_and_send_lem}
use zts_airdrop.Plan.Stages.{
  annotate_world, IsHanded, IsHanded-quiet, IsHanded-on, collect-IsHanded, afford-IsQuiet,
  paid-IsQuiet,
}
use zts_airdrop.World.{Host, World}
use zts_airdrop.Zenon.{Zenon}

module _ (Z : Zenon) (H : Host Z) (o : Options) (p : RunPlan Z H) (dry : p.sending ≡ false)
    (w : World Z H) where
  -- receives handed in, and nothing else
  abbrev Hands : {A : Type 0} → A × Session Z H → Type 0
  Hands q = (k : List Z.Hash) × IsHanded Z H w k q.1.world

  conclude_dry :
      (amount : ℤ) (key : Bytes) (m : PaidMap Z) (s : Session Z H)
      → (conclude Z H o p amount key m s).1 ≡ s
  unfolding conclude
  conclude_dry amount key m s = rw dry refl

  priced_dry :
      (rounds : ℕ) (token : Token Z) (amount : ℤ) (key : Bytes) (m : PaidMap Z) (s : Session Z H)
      → IsHanded Z H w [] s.world
      → Hands (priced Z H rounds o p token amount key m s)
  unfolding priced
  priced_dry rounds token amount key m s handed =
      let s' = annotate Z H o p token amount key (length m) s in
      let needed = times amount (outstanding Z H m p.recipients) in
      let (k, took) = collect-IsHanded Z H rounds o p.sender s'.world in
      let taken : IsHanded Z H w k (collect Z H rounds o p.sender s'.world).1 =
        IsHanded-on Z H (rw (annotate_world Z H o p token amount key (length m) s) handed) took in
      let v = (collect Z H rounds o p.sender s'.world).1 in
      let same = IsHanded-quiet Z H taken (afford-IsQuiet Z H p token needed p.sender v) in
      next_cases Hands
        (λ _ t.
          next (λ _. conclude Z H o p amount key m)
            (on_world Z H (afford Z H p token needed p.sender) t))
        (on_world Z H (collect Z H rounds o p.sender) s') (λ e failed. (k, taken))
        (λ _ went.
          next_cases Hands (λ _. conclude Z H o p amount key m)
            (on_world Z H (afford Z H p token needed p.sender) (record s' { world = v }))
            (λ e failed. (k, same)) (λ _ afforded. rw (conclude_dry amount key m _) (k, same)))

  -- a plan without a token or an amount only prints
  unpriced :
      (rounds : ℕ) (s : Session Z H)
      → (p.token ≡ none) ⊎ (p.amount ≡ none)
      → (plan_and_send Z H rounds o p s).1 ≡ s
  unfolding plan_and_send
  unpriced rounds s h = ground arith

  -- A plan that does not send hands in receives at most, and leaves the journal's file alone.
  pub plan_dry :
      (rounds : ℕ) (s : Session Z H)
      → IsHanded Z H w [] s.world
      → Hands (plan_and_send Z H rounds o p s)
  plan_dry rounds s handed = elim (Option-cases p.token) [
    | inl n ↦ rw (unpriced rounds s (inl n)) ([], handed)
    | inr (token, named) ↦ elim (Option-cases p.amount) [
      | inl n ↦ rw (unpriced rounds s (inr n)) ([], handed)
      | inr (amount, valued) ↦
          let key = plan_key Z H p amount in
          let read = paid-IsQuiet Z H o.journal_path key s.world in
          rw (plan_and_send_lem Z H rounds o p s named valued) (
            next_cases Hands (λ already. priced Z H rounds o p token amount key already)
              (on_world Z H (paid Z H o.journal_path key) s)
              (λ e failed. ([], IsHanded-quiet Z H handed read))
              (λ m went. priced_dry rounds token amount key m _ (IsHanded-quiet Z H handed read)))
    ]
  ]
