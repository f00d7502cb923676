-- ===== src/Examples/Settings.antt =====
-- A settings file, flags and a phrase file, and a scan log written to disk.
use zts_airdrop.Text.{cut, trim_space, same_text, is_space, fields, has_prefix, split}
use zts_airdrop.Journal.{push, drop_cr, split_lines}
use zts_airdrop.Base.{
  List, ◌≡◌, refl, true, false, [], ◌∷◌, ◌++◌, map, Option, none, some, Bytes, codes, Err, errorf,
  wrapf, ok, arith,
}
use zts_airdrop.Env.{
  settle, take_opened, take_settings, take_setting, setting_value, without_export, before_comment,
  quoted_by, ends_with, define, Environment, opened, Flag, lookup_env, load_dot_env, apply_one,
  apply_env_defaults, env_key, parse_line, setting,
}
use zts_airdrop.Env.Precedence.{
  IsAt, settings_precedence, given, given-apply_env_defaults, apply_env_defaults-stops,
}
use zts_airdrop.Env.Quoted.{IsName, quoted_line, parse_line-quoted}
use zts_airdrop.ScanLog.Write.{Folder, Answers, write_scan_log, IsAtomic, write_scan_log-IsAtomic}
use zts_airdrop.Examples.Scan.{written}
use zts_airdrop.Wallet.{normalised, read_mnemonic}
use zts_airdrop.Wallet.Phrase.{Says, read_mnemonic-words}

abbrev last_flag : Flag
last_flag = record { name = codes "last"; explicit = false; value = codes "0" }

abbrev node_flag : Flag
node_flag = record { name = codes "node"; explicit = true; value = codes "n" }

abbrev take_text : Bytes → Bytes → Bytes × Option Err
take_text name text = (text, none)

abbrev not_a_number : Err
not_a_number = errorf "not a number" []

abbrev refuse_text : Bytes → Bytes → Bytes × Option Err
refuse_text name text = (codes "0", some not_a_number)

abbrev real : Environment
real = (codes "ZTS_AIRDROP_LAST", codes "5") ∷ []

last_present : lookup_env (env_key last_flag.name) real ≡ some (codes "5")
unfolding lookup_env env_key same_text push
last_present = refl

abbrev settled : List Flag × Option Err
settled =
    settle (λ k v. none) (λ path. opened (codes "ZTS_AIRDROP_LAST=9")) (codes ".env") take_text real
      (node_flag ∷ last_flag ∷ [])

settled_well : settled.1 ≡ none
unfolding settle load_dot_env take_opened take_settings take_setting parse_line split_lines drop_cr
    setting_value without_export before_comment quoted_by ends_with trim_space has_prefix cut define
    lookup_env apply_env_defaults apply_one env_key same_text push
settled_well = refl

settings_precedence_example : IsAt 1 (record last_flag { value = codes "5" }) settled.0
settings_precedence_example =
    settings_precedence (λ k v. none) (λ path. opened (codes "ZTS_AIRDROP_LAST=9")) (codes ".env")
      take_text real (node_flag ∷ []) [] last_flag (codes "5") refl last_present refl settled_well

given-apply_env_defaults_example :
    given (apply_env_defaults take_text real (node_flag ∷ last_flag ∷ [])).0
    ≡ given (node_flag ∷ last_flag ∷ [])
given-apply_env_defaults_example =
    given-apply_env_defaults take_text real (node_flag ∷ last_flag ∷ [])

node_kept : (apply_one refuse_text real node_flag).1 ≡ none
unfolding apply_one
node_kept = refl

last_refused :
    (apply_one refuse_text real last_flag).1
    ≡ some (wrapf "%s=%q: %w" (env_key (codes "last") ∷ codes "5" ∷ []) not_a_number)
unfolding apply_one lookup_env env_key same_text push
last_refused = refl

apply_env_defaults-stops_example :
    apply_env_defaults refuse_text real (node_flag ∷ last_flag ∷ node_flag ∷ []) ≡ (
      map (λ g. (apply_one refuse_text real g).0) (node_flag ∷ [])
          ++ ((apply_one refuse_text real last_flag).0 ∷ node_flag ∷ []),
      some (wrapf "%s=%q: %w" (env_key (codes "last") ∷ codes "5" ∷ []) not_a_number),
    )
apply_env_defaults-stops_example =
    apply_env_defaults-stops refuse_text real (node_flag ∷ []) (node_flag ∷ []) last_flag
      (wrapf "%s=%q: %w" (env_key (codes "last") ∷ codes "5" ∷ []) not_a_number) (node_kept, tt)
      last_refused

key-IsName : IsName (codes "A_B")
unfolding is_space has_prefix
key-IsName = record {
  full = refl;
  no_space = (refl, (refl, (refl, tt)));
  no_equals = ((λ e. omega arith), ((λ e. omega arith), ((λ e. omega arith), tt)));
  no_comment = refl;
}

parse_line-quoted_example :
    parse_line (quoted_line (codes "A_B") (codes " x # y")) ≡ setting (codes "A_B") (codes " x # y")
parse_line-quoted_example = parse_line-quoted (codes "A_B") (codes " x # y") key-IsName

abbrev phrase_file : Bytes
phrase_file = codes "# net" ++ (10 ∷ codes "abandon  ability ")

read_mnemonic-words_example :
    Says (split 10 phrase_file) (fields (read_mnemonic phrase_file))
    × (normalised (read_mnemonic phrase_file) ≡ read_mnemonic phrase_file)
read_mnemonic-words_example = read_mnemonic-words phrase_file

-- the write stops halfway
abbrev disk_full : Answers
disk_full = record {
  make_dir = none;
  encode = λ l. ok (codes "{}");
  create_temp = none;
  write = (1, some (errorf "disk full" []));
  sync = none;
  close = none;
  rename = none;
  remove = none;
}

abbrev before : Folder
before = record { target = some (codes "old"); temp = none }

write_scan_log-IsAtomic_example :
    IsAtomic disk_full before
      (codes "{}" ++ (10 ∷ []))
      (write_scan_log disk_full (λ t. codes "t") (λ d f. d ++ f) (codes "scans") written before)
write_scan_log-IsAtomic_example =
    write_scan_log-IsAtomic disk_full (λ t. codes "t") (λ d f. d ++ f) (codes "scans") written
      before (codes "{}") refl refl
