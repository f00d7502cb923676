-- ===== src/Main.antt =====
-- main.go: the choice of the key, the filters of the recipients, and the command as a whole.
pub mod Filters
pub mod Shell
pub mod Verify
pub mod Reproduced
pub mod Resend
pub mod Fresh
pub mod Dry
pub mod Rehearsal
pub mod Unsent
pub mod Original
use zts_airdrop.Base.{
  ℕ, ◌+◌, ◌%◌, ◌^◌, Bool, true, false, not, List, [], ◌∷◌, ◌++◌, Option, none, some, Bytes, codes,
  Err, canceled, errorf, wrapf, is_canceled, ℤ, lt_int, Result, ok, err, ltb, ◌&&◌, if◌then◌else◌,
  is_empty, length,
}
use zts_airdrop.Decimal.{decimal}
use zts_airdrop.Effect.{M, next, wrapping}
use zts_airdrop.Env.{env_prefix}
use zts_airdrop.Options.{Options}
use zts_airdrop.Rpc.{balance}
use zts_airdrop.ScanLog.{ScanLog, lines_of, address_strings}
use zts_airdrop.Text.{same_text}
use zts_airdrop.Wallet.{KeySource, read_mnemonic_file}
use zts_airdrop.World.{Host, World}
use zts_airdrop.Zenon.{Zenon, same_address}

abbrev pub default_node : Bytes
default_node = codes "http://localhost:35997"

abbrev pub devnet_mnemonic : Bytes
devnet_mnemonic =
    codes
      "abstract affair idle position alien fluid board ordinary exist afraid chapter wood wood guide sun walnut crew perfect place firm poverty model side million"

-- `os.Getenv`
abbrev pub text_or_empty : Option Bytes → Bytes
text_or_empty none = []
text_or_empty (some text) = text

-- the run sends: `-confirm`, and no `-dry-run`
abbrev pub is_sending : Options → Bool
is_sending o = o.confirm && not o.dry_run

-- what `main` does with the error of `run`: the exit code
unfoldable pub exit_code : Result (Unit {0}) → ℕ
exit_code (ok u) = 0
exit_code (err e) = if is_canceled e then 130 else 1

-- `keySource`, with `os.ReadFile` and `os.LookupEnv` given
module _ (read_file : Bytes → Result Bytes) (lookup : Bytes → Option Bytes) where
  abbrev getenv : Bytes → Bytes
  getenv name = text_or_empty (lookup name)

  abbrev phrase_source : ℕ → Bytes → KeySource
  phrase_source index mnemonic = record {
    mnemonic = mnemonic;
    key_file_path = [];
    password = [];
    index = index;
  }

  -- an encrypted file: the environment's password wins over the flag's
  unfoldable pub keystore_source : Options → ℕ → Result KeySource
  keystore_source o index =
      let env = getenv (codes "ZTS_AIRDROP_PASSWORD") in
      let password = if is_empty env then o.password else env in
      if is_empty password
      then err (errorf "keystore needs a password: set ZTS_AIRDROP_PASSWORD or pass -password" [])
      else ok
          (record { mnemonic = []; key_file_path = o.keystore; password = password; index = index })

  unfoldable pub key_source : Options → Result KeySource
  unfolding keystore_source
  key_source o =
      let index = o.index % 2 ^ 32 in
      let from_env = getenv o.mnemonic_env in
      let default = getenv (env_prefix ++ codes "MNEMONIC") in
      if o.devnet
      then ok (phrase_source index devnet_mnemonic)
      else if not (is_empty o.mnemonic_file)
      then elim (read_mnemonic_file read_file o.mnemonic_file) [
        | err e ↦ err e
        | ok m ↦ ok (phrase_source index m)
      ]
      else if not (is_empty o.mnemonic_env)
      then if is_empty from_env
        then err (errorf "environment variable %s is empty" (o.mnemonic_env ∷ []))
        else ok (phrase_source index from_env)
      else if not (is_empty o.keystore)
      then keystore_source o index
      else if not (is_empty default)
      then ok (phrase_source index default)
      else err (
          errorf
            "no key source: pass -devnet, -mnemonic-file, -mnemonic-env, or -keystore, or set ZTS_AIRDROP_MNEMONIC in .env"
            [])

-- `rangeNamedBy`
unfoldable pub range_named_by : Options → Bytes
range_named_by o =
    let from = codes "-from " ++ decimal o.from in
    let last = codes "-last " ++ decimal o.last in
    let to = codes " -to " ++ decimal o.to in
    if ltb 0 o.from && ltb 0 o.to
    then from ++ to
    else if ltb 0 o.from
    then from
    else if ltb 0 o.last && ltb 0 o.to
    then last ++ to
    else if ltb 0 o.last
    then last
    else []

-- the map `was` and the two counts of a verification that failed: `was[a] = true`, each once
unfoldable pub insert_text : Bytes → List Bytes → List Bytes
unfolding same_text
insert_text s [] = s ∷ []
insert_text s (t ∷ l) = let rest = insert_text s l in if same_text s t then t ∷ l else t ∷ rest

unfoldable pub insert_all : List Bytes → List Bytes → List Bytes
insert_all [] was = was
insert_all (s ∷ rest) was = insert_all rest (insert_text s was)

-- the map without a key, if it has it
unfoldable pub delete_text : Bytes → List Bytes → Option (List Bytes)
unfolding same_text
delete_text s [] = none
delete_text s (t ∷ l) =
    let rest = delete_text s l in
    if same_text s t then some l else elim rest [ none ↦ none | some l' ↦ some (t ∷ l') ]

-- how many texts are new, and how many of the map are left
unfoldable pub compare_lists : List Bytes → List Bytes → ℕ × ℕ
compare_lists [] was = (0, length was)
compare_lists (s ∷ rest) was = elim (delete_text s was) [
  | none ↦ let (added, absent) = compare_lists rest was in (added + 1, absent)
  | some was' ↦ compare_lists rest was'
]

module _ (Z : Zenon) where
  unfoldable pub without : Z.Address → List Z.Address → List Z.Address
  without drop [] = []
  without drop (a ∷ rest) =
      let others = without drop rest in if same_address Z a drop then others else a ∷ others

  -- the text that `writeList` writes
  unfoldable pub list_text : List Z.Address → Bytes
  unfolding lines_of address_strings
  list_text addrs = lines_of (address_strings Z addrs)

  module _ (H : Host Z) where
    -- `filterByHolding`
    unfoldable pub filter_by_holding : Z.Zts → ℤ → List Z.Address → M (World Z H) (List Z.Address)
    filter_by_holding zts floor [] w = (ok [], w)
    filter_by_holding zts floor (a ∷ rest) w =
        let (ended, net) = H.is_done w.net in
        let (answer, w') = balance Z H a zts (record w { net = net }) in
        elim ended [
          | true ↦ (err canceled, record w { net = net })
          | false ↦ elim answer [
            | err e ↦ (err (wrapf "balance of %s: %w" (Z.address_string a ∷ []) e), w')
            | ok held ↦
                next (λ kept w''. (ok (if lt_int held floor then kept else a ∷ kept), w''))
                  (filter_by_holding zts floor rest w')
          ]
        ]
