-- ===== src/Main/Fresh.antt =====
-- main.go: a scan, the filters, and the plan; and the choice between the commands.
use zts_airdrop.Amount.{parse_amount}
use zts_airdrop.Base.{
  ℕ, Bool, not, ◌&&◌, List, [], Option, none, some, Bytes, errorf, wrapf, ℤ, Result, ok, err, ◌==◌,
  if◌then◌else◌, is_empty,
}
use zts_airdrop.Effect.{M, next, wrapping, lift}
use zts_airdrop.Ledger.{Momentum, Token}
use zts_airdrop.Main.{is_sending, range_named_by, without, filter_by_holding}
use zts_airdrop.Main.Resend.{replay_scan}
use zts_airdrop.Main.Shell.{Shell, self_of, new_client, write_list, find_sender, world_feed}
use zts_airdrop.Main.Verify.{verify_scan}
use zts_airdrop.Options.{Options}
use zts_airdrop.Plan.{RunPlan, Session, on_world, plan_and_send}
use zts_airdrop.Rpc.{frontier_momentum, token_by_zts}
use zts_airdrop.Scan.{Range, range_at, scan}
use zts_airdrop.ScanLog.{new_scan_log, set_filter}
use zts_airdrop.Sender.{Sender}
use zts_airdrop.World.{Host, World}
use zts_airdrop.Zenon.{Zenon}

module _ (Z : Zenon) where
  -- the token and the amount that the flags name, if they do
  pub record Choice : Type 0 where
    pub zts : Z.Zts
    pub token : Option (Token Z)
    pub amount : Option ℤ

  -- the amount flag, once the token is known
  unfoldable pub choose_amount : Options → Z.Zts → Token Z → Result Choice
  choose_amount o zts token =
      if is_empty o.amount
      then ok (record { zts = zts; token = some token; amount = none })
      else elim (parse_amount o.amount token.decimals) [
        | err e ↦ err e
        | ok v ↦ ok (record { zts = zts; token = some token; amount = some v })
      ]

  -- what a run that sends cannot do without
  unfoldable pub require : Bool → Choice → Result Choice
  require sending c =
      if sending
      then elim c.token [
        | none ↦ err (errorf "pass -zts <token standard>" [])
        | some t ↦ elim c.amount [
          | none ↦ err (errorf "pass -amount <per recipient>" [])
          | some v ↦ ok c
        ]
      ]
      else ok c

  -- the text that the log's filter has for the excluded sender
  abbrev pub self_label : Options → Option Z.Address → Bytes
  self_label o none = []
  self_label o (some a) = if o.exclude_self then Z.address_string a else []

  module _ (H : Host Z) where
    unfoldable pub choose : Options → M (World Z H) Choice
    unfolding choose_amount
    choose o w =
        if is_empty o.zts_flag
        then (ok (record { zts = Z.zero_zts; token = none; amount = none }), w)
        else elim (Z.parse_zts o.zts_flag) [
          | err e ↦ (err (wrapf "bad -zts: %w" [] e), w)
          | ok zts ↦ next (λ token w'. (choose_amount o zts token, w')) (token_by_zts Z H zts w)
        ]

    -- without the sender, if it is to be left out
    unfoldable pub exclude_self : Options → Option (Sender Z H) → List Z.Address → List Z.Address
    exclude_self o none addrs = addrs
    exclude_self o (some s) addrs = if o.exclude_self then without Z s.addr addrs else addrs

    -- those that hold enough, if a holding is asked for
    unfoldable pub hold_enough : Options → Choice → List Z.Address → M (World Z H) (List Z.Address)
    hold_enough o c addrs w = if is_empty o.min_holding_flag then (ok addrs, w) else elim c.token [
      | none ↦ (err (errorf "-min-holding needs -zts, to know which token to weigh" []), w)
      | some token ↦ elim (parse_amount o.min_holding_flag token.decimals) [
        | err e ↦ (err (wrapf "bad -min-holding: %w" [] e), w)
        | ok floor ↦ filter_by_holding Z H c.zts floor addrs w
      ]
    ]

    unfoldable pub fresh_plan :
        Options → Range → Choice → Option (Sender Z H) → List Z.Address → RunPlan Z H
    fresh_plan o range c sender recipients = record {
      sender = sender;
      self = self_of Z H sender;
      zts = c.zts;
      token = c.token;
      amount = c.amount;
      recipients = recipients;
      from = range.from;
      to = range.to;
      sending = is_sending o;
    }

    abbrev address_of : Option (Sender Z H) → Option Z.Address
    address_of none = none
    address_of (some s) = some s.addr

    module _ (Sh : Shell Z H) where
      -- behind the filters
      unfoldable pub launch :
          ℕ
          → Options
          → Range
          → Choice
          → Option (Sender Z H)
          → List Z.Address
          → M (Session Z H) (Unit {0})
      unfolding fresh_plan
      launch rounds o range c sender recipients s =
          let filtered = record s {
            scan_log = elim s.scan_log [
              | none ↦ none
              | some l ↦
                  some (
                    set_filter Z (self_label o (address_of sender)) o.min_holding_flag recipients l)
            ];
          } in
          if is_empty recipients
          then (err (errorf "no recipients in that range" []), filtered)
          else next (λ _. plan_and_send Z H rounds o (fresh_plan o range c sender recipients))
              (on_world Z H (write_list Z H Sh recipients o.out_file) filtered)

      -- behind the scan
      unfoldable pub after_scan : ℕ → Options → Range → List Z.Address → M (Session Z H) (Unit {0})
      unfolding choose require exclude_self hold_enough launch
      after_scan rounds o range found s =
          if o.list_only
          then on_world Z H (write_list Z H Sh found o.out_file) s
          else next
              (λ c s1.
                next
                  (λ sender s2.
                    next (λ recipients. launch rounds o range c sender recipients)
                      (on_world Z H (hold_enough o c (exclude_self o sender found)) s2))
                  (on_world Z H (find_sender Z H Sh (is_sending o) (λ tip. none) o) s1))
              (on_world Z H (λ w. next (λ c. lift (require (is_sending o) c)) (choose o w)) s)

      -- the scan and its log
      unfoldable pub scan_and_plan :
          ℕ → Bytes → Options → Momentum Z → Range → M (Session Z H) (Unit {0})
      unfolding after_scan
      scan_and_plan rounds version o tip range s =
          let (start, net) = H.now s.world.net in
          next
            (λ res s'. after_scan rounds o range res.addresses (record s' {
              scan_log = some (
                  new_scan_log Z version o.node tip.chain_identifier
                    (record { height = tip.height; hash = Z.hash_string tip.hash })
                    (range_named_by o) (record { include_recipients = o.include_recipients }) res
                    start);
            }))
            (on_world Z H (scan Z (world_feed Z H) o.include_recipients range.from range.to)
              (record s { world = record s.world { net = net } }))

      -- `run` behind its dispatch; the log in the last session is what the deferred function writes
      unfoldable pub run_fresh : ℕ → Bytes → Options → World Z H → Result (Unit {0}) × Session Z H
      unfolding scan_and_plan
      run_fresh rounds version o w =
          next
            (λ tip s.
              next (λ range. scan_and_plan rounds version o tip range)
                (lift (range_at tip.height o.from o.last o.to) s))
            (on_world Z H (wrapping (wrapf "reach node: %w" []) (frontier_momentum Z H))
              (record { world = new_client Z H Sh o.node w; scan_log = none }))

      abbrev unlogged : Result (Unit {0}) × World Z H → Result (Unit {0}) × Session Z H
      unlogged (r, w) = (r, record { world = w; scan_log = none })

      -- `run` behind the flags and the environment
      unfoldable pub run_command :
          ℕ → Bytes → Bool → Options → World Z H → Result (Unit {0}) × Session Z H
      unfolding run_fresh
      run_command rounds version no_args o w =
          if not (is_empty o.verify_scan)
          then unlogged (verify_scan Z H Sh o w)
          else if not (is_empty o.replay)
          then unlogged (replay_scan Z H Sh rounds o w)
          else if no_args && is_empty o.zts_flag && o.last == 0 && o.from == 0
          then unlogged (err (errorf "nothing to do: pass flags or create a .env" []), w)
          else run_fresh rounds version o w
