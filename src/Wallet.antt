-- ===== src/Wallet.antt =====
-- wallet.go: the key that signs, from a phrase or from an encrypted file.
pub mod Phrase
use zts_airdrop.Base.{
  ℕ, Bool, true, false, not, ◌||◌, List, [], ◌∷◌, ◌++◌, Bytes, codes, errorf, wrapf, Result, ok,
  err, if◌then◌else◌, is_empty,
}
use zts_airdrop.Decimal.{decimal}
use zts_airdrop.Text.{trim_space, has_prefix, join, split, fields}

pub record KeySource : Type 0 where
  pub mnemonic : Bytes
  pub key_file_path : Bytes
  pub password : Bytes
  pub index : ℕ

-- go-bip39 and go-zenon's wallet, with the disk that its `ReadKeyFile` reads
pub record Wallet (Key : Type 0) : Type 1 where
  pub KeyFile : Type 0
  pub KeyStore : Type 0
  pub is_mnemonic_valid : Bytes → Bool
  pub new_seed : Bytes → Bytes → Bytes
  pub derive_for_path : Bytes → Bytes → Result Key
  pub read_key_file : Bytes → Result KeyFile
  pub decrypt : KeyFile → Bytes → Result KeyStore
  pub derive_for_index_path : KeyStore → ℕ → Result Key

-- the phrase with one blank between its words
unfoldable pub normalised : Bytes → Bytes
normalised mnemonic = join b' ' (fields mnemonic)

abbrev pub derivation_path : ℕ → Bytes
derivation_path index = codes "m/44'/73404'/" ++ decimal index ++ codes "'"

-- the words of the lines that are neither blank nor comments
unfoldable pub phrase_words : List Bytes → List Bytes
phrase_words [] = []
phrase_words (line ∷ rest) =
    let words = phrase_words rest in
    let text = trim_space line in
    if is_empty text || has_prefix (codes "#") text then words else fields text ++ words

-- what `ReadMnemonicFile` makes of the file's text
unfoldable pub read_mnemonic : Bytes → Bytes
unfolding phrase_words
read_mnemonic raw = join b' ' (phrase_words (split 10 raw))

-- `ReadMnemonicFile`, with `os.ReadFile` given
unfoldable pub read_mnemonic_file : (Bytes → Result Bytes) → Bytes → Result Bytes
unfolding read_mnemonic
read_mnemonic_file read_file path = elim (read_file path) [
  | err e ↦ err e
  | ok raw ↦ ok (read_mnemonic raw)
]

module _ {Key : Type 0} (W : Wallet Key) where
  unfoldable pub from_mnemonic : Bytes → ℕ → Result Key
  unfolding normalised
  from_mnemonic mnemonic index =
      let phrase = normalised mnemonic in
      if W.is_mnemonic_valid phrase
      then W.derive_for_path (derivation_path index) (W.new_seed phrase [])
      else err (errorf "invalid BIP-39 mnemonic" [])

  -- the keystore's path, the password and the index
  unfoldable pub from_key_file : Bytes → Bytes → ℕ → Result Key
  from_key_file path password index = elim (W.read_key_file path) [
    | err e ↦ err (wrapf "read keystore: %w" [] e)
    | ok file ↦ elim (W.decrypt file password) [
      | err e ↦ err (wrapf "decrypt keystore: %w" [] e)
      | ok store ↦ W.derive_for_index_path store index
    ]
  ]

  unfoldable pub load_key : KeySource → Result Key
  unfolding from_mnemonic from_key_file
  load_key src =
      if not (is_empty src.mnemonic)
      then from_mnemonic src.mnemonic src.index
      else if not (is_empty src.key_file_path)
      then from_key_file src.key_file_path src.password src.index
      else err (errorf "no key source: pass a keystore or a mnemonic" [])
