-- ===== src/Main/Resend.antt =====
-- replay.go: a saved scan log is sent, or sized, again.
use zts_airdrop.Base.{
  ℕ, Bool, false, not, ◌&&◌, List, [], ◌∷◌, Option, none, some, Bytes, Err, errorf, wrapf, ℤ, ok,
  err, ltb, ◌==◌, if◌then◌else◌, is_empty,
}
use zts_airdrop.Decimal.{decimal}
use zts_airdrop.Effect.{M, next}
use zts_airdrop.Journal.{run_key, paid}
use zts_airdrop.Ledger.{Momentum, Token}
use zts_airdrop.Main.{is_sending}
use zts_airdrop.Main.Shell.{Shell, node_of, self_of, new_client, write_list, find_sender}
use zts_airdrop.Options.{Options}
use zts_airdrop.Plan.{RunPlan, plan_and_send}
use zts_airdrop.Replay.{replay_amount, replay_list}
use zts_airdrop.Rpc.{token_by_zts}
use zts_airdrop.ScanLog.{ScanLog, read_scan_log}
use zts_airdrop.Sender.{Sender}
use zts_airdrop.World.{Host, World}
use zts_airdrop.Zenon.{Zenon}

-- the token and the amount that the log records
abbrev pub logged_zts : ScanLog → Bytes
logged_zts l = elim l.airdrop [ none ↦ [] | some a ↦ a.zts ]

abbrev pub logged_amount : ScanLog → Bytes
logged_amount l = elim l.airdrop [ none ↦ [] | some a ↦ a.amount_raw ]

-- the log says that sends were published
abbrev pub was_published : ScanLog → Bool
was_published l = elim l.airdrop [ none ↦ false | some a ↦ a.published && ltb 0 a.sent ]

-- the flag wins over the log
abbrev pub token_text : Options → ScanLog → Bytes
token_text o l = if is_empty o.zts_flag then logged_zts l else o.zts_flag

module _ (Z : Zenon) where
  -- a node on another chain than the log's is refused, if the log names one
  unfoldable pub wrong_chain : ScanLog → Bytes → Momentum Z → Option Err
  wrong_chain l node tip =
      if not (l.chain == 0) && not (tip.chain_identifier == l.chain)
      then some (
          errorf "scan log is from chain %d but %s is chain %d"
            (decimal l.chain ∷ node ∷ decimal tip.chain_identifier ∷ []))
      else none

  module _ (H : Host Z) (Sh : Shell Z H) where
    -- the original range, for the run key, and no scan log
    unfoldable pub replay_plan :
        Options → ScanLog → List Z.Address → Z.Zts → Token Z → ℤ → Option (Sender Z H) → RunPlan Z H
    replay_plan o l recipients zts token amount sender = record {
      sender = sender;
      self = self_of Z H sender;
      zts = zts;
      token = some token;
      amount = some amount;
      recipients = recipients;
      from = l.range.from;
      to = l.range.to;
      sending = is_sending o;
    }

    -- the journal is read for a log that was published; only a printed warning depends on it
    unfoldable pub check_journal : Options → ScanLog → Z.Zts → ℤ → M (World Z H) (Unit {0})
    check_journal o l zts amount w =
        if was_published l
        then next (λ m w'. (ok tt, w'))
            (paid Z H o.journal_path (run_key Z zts amount l.range.from l.range.to) w)
        else (ok tt, w)

    -- behind the token and the amount
    unfoldable pub replay_sized :
        ℕ
        → Options
        → ScanLog
        → Bytes
        → List Z.Address
        → Z.Zts
        → Token Z
        → ℤ
        → M (World Z H) (Unit {0})
    unfolding replay_plan check_journal
    replay_sized rounds o l node recipients zts token amount w =
        next
          (λ sender w1.
            next
              (λ _ w2.
                next
                  (λ _ w3.
                    let (r, s) =
                      plan_and_send Z H rounds o
                        (replay_plan o l recipients zts token amount sender)
                        (record { world = w3; scan_log = none }) in
                    (r, s.world))
                  (write_list Z H Sh recipients o.out_file w2))
              (check_journal o l zts amount w1))
          (find_sender Z H Sh (is_sending o) (wrong_chain l node) o w)

    -- behind the list
    unfoldable pub replay_to : ℕ → Options → ScanLog → List Z.Address → M (World Z H) (Unit {0})
    unfolding replay_sized
    replay_to rounds o l recipients w =
        let node = node_of Z H o l.node in
        let at_node = new_client Z H Sh node w in
        if is_empty (token_text o l)
        then (err (errorf "%s records no token; pass -zts" (o.replay ∷ [])), at_node)
        else elim (Z.parse_zts (token_text o l)) [
          | err e ↦ (err (wrapf "bad token standard %q: %w" (token_text o l ∷ []) e), at_node)
          | ok zts ↦
              next
                (λ token w'.
                  elim (replay_amount o.replay o.amount (logged_amount l) token.decimals) [
                    | err e ↦ (err e, w')
                    | ok amount ↦ replay_sized rounds o l node recipients zts token amount w'
                  ])
                (token_by_zts Z H zts at_node)
        ]

    -- `replayScan`
    unfoldable pub replay_scan : ℕ → Options → M (World Z H) (Unit {0})
    unfolding replay_to
    replay_scan rounds o w = elim (read_scan_log (Sh.read_file w.net) Sh.decode_scan_log o.replay) [
      | err e ↦ (err e, w)
      | ok l ↦ elim (replay_list Z l) [
        | err e ↦ (err (wrapf "%s: %w" (o.replay ∷ []) e), w)
        | ok list ↦ replay_to rounds o l list.addresses w
      ]
    ]
