-- ===== src/Options.antt =====
-- main.go: the options of a run, as the flags leave them.
use zts_airdrop.Base.{ℕ, Bool, Bytes}

-- `options`; a duration in milliseconds, and a pause or a limit that is not positive as 0
pub record Options : Type 0 where
  pub node : Bytes
  pub mnemonic_file : Bytes
  pub mnemonic_env : Bytes
  pub keystore : Bytes
  pub password : Bytes
  pub index : ℕ
  pub devnet : Bool
  pub zts_flag : Bytes
  pub amount : Bytes
  pub from : ℕ
  pub to : ℕ
  pub last : ℕ
  pub include_recipients : Bool
  pub exclude_self : Bool
  pub min_holding_flag : Bytes
  pub confirm : Bool
  pub dry_run : Bool
  pub receive : Bool
  pub journal_path : Bytes
  pub delay : ℕ
  pub stop_after : ℕ
  pub list_only : Bool
  pub out_file : Bytes
  pub env_file : Bytes
  pub show_version : Bool
  pub scan_log_dir : Bytes
  pub verify_scan : Bytes
  pub replay : Bytes
