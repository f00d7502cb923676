-- ===== src/Main/Shell.antt =====
-- main.go: what the commands use of the process: files, the environment, the wallet, the client.
use zts_airdrop.Base.{
  Bool, List, [], Option, none, some, Bytes, Err, wrapf, Result, ok, err, if◌then◌else◌, is_empty,
}
use zts_airdrop.Effect.{M, next, wrapping}
use zts_airdrop.Ledger.{Momentum}
use zts_airdrop.Main.{key_source, list_text, default_node}
use zts_airdrop.Options.{Options}
use zts_airdrop.Rpc.{frontier_momentum, momentums_by_height, detailed_momentums_by_height}
use zts_airdrop.Scan.{Feed}
use zts_airdrop.ScanLog.{ScanLog}
use zts_airdrop.Sender.{Sender, new_sender}
use zts_airdrop.Text.{same_text}
use zts_airdrop.Wallet.{Wallet, load_key}
use zts_airdrop.World.{Host, World}
use zts_airdrop.Zenon.{Zenon}

module _ (Z : Zenon) (H : Host Z) where
  pub record Shell : Type 1 where
    -- `os.ReadFile`, on the disk as it is
    pub read_file : H.Net → Bytes → Result Bytes
    -- `os.WriteFile`: its error, and what the file holds then, if it could be opened
    pub write_file : Bytes → Bytes → H.Net → (Option Err × Option Bytes) × H.Net
    -- a path that names the journal's file
    pub is_journal : Bytes → Bool
    pub lookup_env : Bytes → Option Bytes
    pub wallet : Wallet H.Key
    pub decode_scan_log : Bytes → Result ScanLog
    -- the node that the client's requests go to from then on
    pub connect : Bytes → H.Net → H.Net

  -- the scanner's view of the client
  abbrev pub world_feed : Feed Z (World Z H)
  world_feed = record {
    is_done = λ w. let (ended, net) = H.is_done w.net in (ended, record w { net = net });
    momentums = λ height count w. momentums_by_height Z H height count w;
    detailed = λ height count w. detailed_momentums_by_height Z H height count w;
    now = λ w. let (t, net) = H.now w.net in (t, record w { net = net });
  }

  -- the node of a log, unless a flag names another one than the default
  unfoldable pub node_of : Options → Bytes → Bytes
  unfolding same_text
  node_of o logged = if same_text o.node default_node then logged else o.node

  -- the address of a sender, zero if there is none
  abbrev pub self_of : Option (Sender Z H) → Z.Address
  self_of none = Z.zero_address
  self_of (some s) = s.addr

  module _ (Sh : Shell) where
    -- `NewClient`
    unfoldable pub new_client : Bytes → World Z H → World Z H
    new_client node w = record w { net = Sh.connect node w.net; id = 0 }

    -- `writeList`
    unfoldable pub write_list : List Z.Address → Bytes → M (World Z H) (Unit {0})
    unfolding list_text
    write_list addrs path w =
        let ((failure, content), net) = Sh.write_file path (list_text Z addrs) w.net in
        if is_empty path then (ok tt, w) else (
          elim failure [ some e ↦ err e | none ↦ ok tt ],
          record w {
            net = net;
            file =
                if Sh.is_journal path
                then elim content [ some c ↦ some c | none ↦ w.file ]
                else w.file;
          },
        )

    -- a key's sender: the node's chain, which `refuses` may reject
    unfoldable pub meet_node : (Momentum Z → Option Err) → H.Key → M (World Z H) (Sender Z H)
    unfolding new_sender
    meet_node refuses key w =
        next
          (λ tip w'. elim (refuses tip) [
            | some e ↦ (err e, w')
            | none ↦ (
              ok (new_sender Z H key tip.chain_identifier),
              record w' { last_hash = Z.zero_hash },
            )
          ])
          (wrapping (wrapf "reach node: %w" []) (frontier_momentum Z H) w)

    -- the sender, if a key is configured; a run that sends needs one
    unfoldable pub find_sender :
        Bool → (Momentum Z → Option Err) → Options → M (World Z H) (Option (Sender Z H))
    unfolding meet_node
    find_sender sending refuses o w = elim (key_source (Sh.read_file w.net) Sh.lookup_env o) [
      | err e ↦ if sending then (err e, w) else (ok none, w)
      | ok src ↦ elim (load_key Sh.wallet src) [
        | err e ↦ (err e, w)
        | ok key ↦ next (λ s w'. (ok (some s), w')) (meet_node refuses key w)
      ]
    ]
