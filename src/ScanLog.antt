-- ===== src/ScanLog.antt =====
-- scanlog.go: the record of a scan, its digests, and the reading of a saved one.
pub mod Digest
pub mod Write
use zts_airdrop.Base.{
  ℕ, ◌+◌, ◌-◌, ◌%◌, ◌^◌, Bool, List, [], ◌∷◌, ◌++◌, map, Option, none, some, Bytes, codes, Err,
  errorf, wrapf, ℤ, pos, ◌-ℤ◌, Result, ok, err, ◌==◌, if◌then◌else◌, length,
}
use zts_airdrop.Decimal.{decimal}
use zts_airdrop.Sort.{sort_by}
use zts_airdrop.Text.{join}
use zts_airdrop.Zenon.{Zenon}

abbrev pub scan_log_version : ℕ
scan_log_version = 1

pub record ScanRange : Type 0 where
  pub from : ℕ
  pub to : ℕ
  pub count : ℕ
  pub named_by : Bytes

pub record ScanTip : Type 0 where
  pub height : ℕ
  pub hash : Bytes

pub record ScanOptions : Type 0 where
  pub include_recipients : Bool

pub record ScanTotals : Type 0 where
  pub momentums : ℕ
  pub blocks : ℕ
  pub contract_blocks : ℕ
  pub user_addresses : ℕ

pub record ScanFilter : Type 0 where
  pub excluded_self : Bytes
  pub min_holding : Bytes
  pub recipient_count : ℕ
  pub recipient_digest : Bytes
  pub recipients : List Bytes
  pub removed_by_filters : ℤ

pub record ScanAirdrop : Type 0 where
  pub zts : Bytes
  pub symbol : Bytes
  pub decimals : ℕ
  pub amount_raw : Bytes
  pub amount : Bytes
  pub total_raw : Bytes
  pub total : Bytes
  pub sender : Bytes
  pub run_key : Bytes
  pub journal : Bytes
  pub published : Bool
  pub sent : ℕ
  pub skipped : ℕ
  pub failed : ℕ
  pub already_paid : ℕ

-- times in milliseconds
pub record ScanLog : Type 0 where
  pub version : ℕ
  pub tool : Bytes
  pub tool_version : Bytes
  pub started_at : ℕ
  pub finished_at : ℕ
  pub elapsed_ms : ℕ
  pub node : Bytes
  pub chain : ℕ
  pub range : ScanRange
  pub tip : ScanTip
  pub options : ScanOptions
  pub totals : ScanTotals
  pub digest : Bytes
  pub addresses : List Bytes
  pub filter : Option ScanFilter
  pub airdrop : Option ScanAirdrop
  pub reproduce : Bytes

-- each line with its newline
unfoldable pub lines_of : List Bytes → Bytes
lines_of [] = []
lines_of (s ∷ rest) = s ++ (10 ∷ lines_of rest)

-- what `digestStrings` hashes
unfoldable pub digest_text : List Bytes → Bytes
unfolding lines_of
digest_text strs = lines_of (sort_by (λ s. s) strs)

-- `reproduceCommand`
unfoldable pub reproduce_command : Bytes → ℕ → ℕ → ScanOptions → Bytes
reproduce_command node from to opts = join b' ' (
    codes "zts-airdrop"
    ∷ (codes "-node " ++ node)
    ∷ (codes "-from " ++ decimal from)
    ∷ (codes "-to " ++ decimal to)
    ∷ (if opts.include_recipients
        then codes "-include-recipients" ∷ codes "-list" ∷ []
        else codes "-list" ∷ []))

-- `Filename`, with `StartedAt.Format("20060102T150405Z")` given
unfoldable pub filename : (ℕ → Bytes) → ScanLog → Bytes
filename stamp l =
    codes "scan-"
    ++ stamp l.started_at
    ++ (b'-' ∷ decimal l.range.from)
    ++ (b'-' ∷ decimal l.range.to)
    ++ codes ".json"

-- `ReadScanLog`, with `os.ReadFile` and the decoding of JSON given
unfoldable pub read_scan_log :
    (Bytes → Result Bytes) → (Bytes → Result ScanLog) → Bytes → Result ScanLog
read_scan_log read_file decode path = elim (read_file path) [
  | err e ↦ err e
  | ok raw ↦ elim (decode raw) [
    | err e ↦ err (wrapf "%s: %w" (path ∷ []) e)
    | ok l ↦
        if l.version == scan_log_version
        then ok l
        else err (
            errorf "%s: scan log version %d, this build understands %d"
              (path ∷ decimal l.version ∷ decimal scan_log_version ∷ []))
  ]
]

module _ (Z : Zenon) where
  -- `ScanResult`, the elapsed time in milliseconds
  pub record ScanResult : Type 0 where
    pub from_height : ℕ
    pub to_height : ℕ
    pub momentums : ℕ
    pub blocks : ℕ
    pub contracts : ℕ
    pub addresses : List Z.Address
    pub elapsed : ℕ

  unfoldable pub digest_strings : List Bytes → Bytes
  digest_strings strs = Z.sha256_hex (digest_text strs)

  unfoldable pub address_strings : List Z.Address → List Bytes
  address_strings addrs = map Z.address_string addrs

  unfoldable pub address_digest : List Z.Address → Bytes
  unfolding digest_strings address_strings
  address_digest addrs = digest_strings (address_strings addrs)

  unfoldable pub new_scan_log :
      Bytes → Bytes → ℕ → ScanTip → Bytes → ScanOptions → ScanResult → ℕ → ScanLog
  new_scan_log tool_version node chain tip named_by opts res started_at = record {
    version = scan_log_version;
    tool = codes "zts-airdrop";
    tool_version = tool_version;
    started_at = started_at;
    finished_at = started_at + res.elapsed;
    elapsed_ms = res.elapsed;
    node = node;
    chain = chain;
    range = record {
      from = res.from_height;
      to = res.to_height;
      count = (res.to_height + 2 ^ 64 - res.from_height + 1) % 2 ^ 64;
      named_by = named_by;
    };
    tip = tip;
    options = opts;
    totals = record {
      momentums = res.momentums;
      blocks = res.blocks;
      contract_blocks = res.contracts;
      user_addresses = length res.addresses;
    };
    digest = address_digest res.addresses;
    addresses = address_strings res.addresses;
    filter = none;
    airdrop = none;
    reproduce = reproduce_command node res.from_height res.to_height opts;
  }

  unfoldable pub set_filter : Bytes → Bytes → List Z.Address → ScanLog → ScanLog
  set_filter self min_holding recipients l = record l {
    filter = some (record {
      excluded_self = self;
      min_holding = min_holding;
      recipient_count = length recipients;
      recipient_digest = address_digest recipients;
      recipients = address_strings recipients;
      removed_by_filters = pos (length l.addresses) -ℤ pos (length recipients);
    });
  }
