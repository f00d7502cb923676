-- ===== src/Zenon.antt =====
-- What the program takes from go-zenon: the types of `common/types`, their text, the wallet's
-- keys, the hashing of blocks and the proof of work. None of it is defined here.
use zts_airdrop.Base.{◌≡◌, Bool, true, false, is_empty, Bytes, Result, ok, ite}
use zts_airdrop.Text.Laws.{Lacks}

pub record Zenon : Type 1 where
  pub Address : Type 0
  pub Hash : Type 0
  pub Zts : Type 0
  pub address_discrete : Discrete Address
  pub hash_discrete : Discrete Hash
  -- `String` of each
  pub address_string : Address → Bytes
  pub hash_string : Hash → Bytes
  pub zts_string : Zts → Bytes
  -- `ParseAddress`, `ParseZTS`
  pub parse_address : Bytes → Result Address
  pub parse_zts : Bytes → Result Zts
  pub zero_address : Address
  pub zero_hash : Hash
  pub zero_zts : Zts
  -- `IsEmbeddedAddress`
  pub is_embedded : Address → Bool
  -- `sha256.Sum256` and `hex.EncodeToString` of it
  pub sha256_hex : Bytes → Bytes

-- The documented behaviour of those texts: an address and a token standard are read back from
-- their own text, an address's text is one line, and a token standard's is not empty and holds
-- no bar.
pub record IsLawful (Z : Zenon) : Type 0 where
  pub parse-address_string : (a : Z.Address) → Z.parse_address (Z.address_string a) ≡ ok a
  pub address_string_line : (a : Z.Address) → Lacks 10 (Z.address_string a)
  pub parse-zts_string : (t : Z.Zts) → Z.parse_zts (Z.zts_string t) ≡ ok t
  pub zts_string_full : (t : Z.Zts) → is_empty (Z.zts_string t) ≡ false
  pub zts_string_bar : (t : Z.Zts) → Lacks b'|' (Z.zts_string t)
  pub zts_string_injective : (t u : Z.Zts) → Z.zts_string t ≡ Z.zts_string u → t ≡ u

module _ (Z : Zenon) where
  -- `addr.IsZero()`, `hash.IsZero()` and `==` on both types
  abbrev pub same_address : Z.Address → Z.Address → Bool
  same_address a b = ite (Z.address_discrete a b) true false

  abbrev pub same_hash : Z.Hash → Z.Hash → Bool
  same_hash a b = ite (Z.hash_discrete a b) true false
