-- ===== src/Ledger.antt =====
-- The ledger types of rpc.go, and the block that send.go builds and publishes.
use zts_airdrop.Base.{ℕ, List, Option, Bytes, ℤ}
use zts_airdrop.Zenon.{Zenon}

module _ (Z : Zenon) where
  pub record AccountHeader : Type 0 where
    pub address : Z.Address
    pub hash : Z.Hash
    pub height : ℕ

  pub record Momentum : Type 0 where
    pub version : ℕ
    pub chain_identifier : ℕ
    pub hash : Z.Hash
    pub previous_hash : Z.Hash
    pub height : ℕ
    pub timestamp : ℤ
    pub content : List AccountHeader
    pub producer : Z.Address

  pub record ConfirmationDetail : Type 0 where
    pub num_confirmations : ℕ
    pub momentum_height : ℕ
    pub momentum_hash : Z.Hash

  pub record AccountBlock : Type 0 where
    pub block_type : ℕ
    pub hash : Z.Hash
    pub previous_hash : Z.Hash
    pub height : ℕ
    pub address : Z.Address
    pub to_address : Z.Address
    pub amount : ℤ
    pub token_standard : Z.Zts
    pub from_block_hash : Z.Hash
    pub confirmation_detail : Option ConfirmationDetail

  pub record DetailedMomentum : Type 0 where
    pub account_blocks : List AccountBlock
    pub momentum : Momentum

  pub record Token : Type 0 where
    pub name : Bytes
    pub symbol : Bytes
    pub decimals : ℕ
    pub token_standard : Z.Zts

  -- `nom.AccountBlock`, with the fields that the program sets
  pub record NewBlock : Type 0 where
    pub version : ℕ
    pub chain_identifier : ℕ
    pub block_type : ℕ
    pub hash : Z.Hash
    pub previous_hash : Z.Hash
    pub height : ℕ
    pub momentum_hash : Z.Hash
    pub momentum_height : ℕ
    pub address : Z.Address
    pub to_address : Z.Address
    pub amount : ℤ
    pub token_standard : Z.Zts
    pub from_block_hash : Z.Hash
    pub fused_plasma : ℕ
    pub difficulty : ℕ
    pub nonce : Bytes
    pub public_key : Bytes
    pub signature : Bytes

pub record RequiredPlasma : Type 0 where
  pub available_plasma : ℕ
  pub base_plasma : ℕ
  pub required_difficulty : ℕ
