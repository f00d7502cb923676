-- ===== src/Replay.antt =====
-- replay.go: the list and the amount that a saved log is replayed with.
pub mod Approved
use zts_airdrop.Amount.{parse_amount}
use zts_airdrop.Base.{
  ℕ, Bool, true, false, not, ◌&&◌, List, [], ◌∷◌, Option, none, some, Bytes, codes, Err, errorf,
  wrapf, ℤ, pos, abs, is_negative, Result, ok, err, ◌==◌, ◌||◌, if◌then◌else◌, is_empty,
}
use zts_airdrop.Decimal.{set_string}
use zts_airdrop.Text.{same_text}
use zts_airdrop.ScanLog.{ScanLog, ScanFilter, address_digest}
use zts_airdrop.Zenon.{Zenon}

-- the texts to replay, and the digest and the label beside them
pub record Source : Type 0 where
  pub texts : List Bytes
  pub digest : Bytes
  pub label : Bytes

abbrev scanned : ScanLog → Source
scanned l = record { texts = l.addresses; digest = l.digest; label = codes "scanned addresses" }

-- the filtered recipients if the log has any, else the scanned addresses
unfoldable pub source_of : ScanLog → Source
source_of l = elim l.filter [
  | none ↦ scanned l
  | some f ↦ if is_empty f.recipients then scanned l else record {
    texts = f.recipients;
    digest = f.recipient_digest;
    label = codes "filtered recipients";
  }
]

-- the amount that goes on the wire: the flag's if it is given, else the log's, as it stands
unfoldable pub replay_amount : Bytes → Bytes → Bytes → ℕ → Result ℤ
replay_amount path flag raw decimals =
    let unusable = err (errorf "%s records an unusable amount %q" (path ∷ raw ∷ [])) in
    if not (is_empty flag)
    then parse_amount flag decimals
    else if not (is_empty raw)
    then elim (set_string raw) [
      | none ↦ unusable
      | some v ↦ if is_negative v || abs v == 0 then unusable else ok v
    ]
    else err (errorf "%s records no amount; pass -amount" (path ∷ []))

module _ (Z : Zenon) where
  pub record Replayed : Type 0 where
    pub addresses : List Z.Address
    pub label : Bytes
    pub digest : Bytes

  -- the loop over the texts
  unfoldable pub parse_list : List Bytes → Result (List Z.Address)
  parse_list [] = ok []
  parse_list (s ∷ rest) =
      let others = parse_list rest in
      elim (Z.parse_address s) [
        | err e ↦ err (wrapf "%q is not an address: %w" (s ∷ []) e)
        | ok a ↦ elim others [ err e ↦ err e | ok l ↦ ok (a ∷ l) ]
      ]

  -- the digest of the parsed list against the recorded one
  unfoldable pub check_digest : Source → List Z.Address → Result Replayed
  unfolding same_text
  check_digest src addrs =
      let got = address_digest Z addrs in
      if same_text got src.digest
      then ok (record { addresses = addrs; label = src.label; digest = src.digest })
      else err (
          errorf "inconsistent: its %s digest is %s but the list hashes to %s"
            (src.label ∷ src.digest ∷ got ∷ []))

  -- `replayList` behind the choice of its source
  unfoldable pub replay_source : Source → Result Replayed
  replay_source src =
      if is_empty src.texts
      then err (errorf "records no addresses" [])
      else elim (parse_list src.texts) [ err e ↦ err e | ok addrs ↦ check_digest src addrs ]

  -- `replayList`
  unfoldable pub replay_list : ScanLog → Result Replayed
  unfolding source_of
  replay_list l = replay_source (source_of l)
