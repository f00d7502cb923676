-- ===== src/World.antt =====
-- The program's surroundings: the node behind HTTP, the clock, the context and the journal's
-- file, and the state that the program itself keeps between calls.
use Prim.Native.String.{String}
use zts_airdrop.Base.{ℕ, Bool, List, Option, Bytes, Err, ℤ, Result}
use zts_airdrop.Ledger.{Momentum, DetailedMomentum, AccountBlock, Token, NewBlock, RequiredPlasma}
use zts_airdrop.Zenon.{Zenon}

pub record RpcError : Type 0 where
  pub code : ℤ
  pub message : Bytes

-- the JSON-RPC answer: the raw result, empty if the member is missing
pub record Envelope : Type 0 where
  pub result : Bytes
  pub error : Option RpcError

-- what `http.Client.Do` and `io.ReadAll` give
pub data Reply : Type 0 where
  unreachable : Err → Reply
  reply : ℕ → Bytes → Reply

-- `Entry`, one line of the journal; the time in milliseconds
pub record Entry : Type 0 where
  pub run : Bytes
  pub index : ℕ
  pub address : Bytes
  pub amount : Bytes
  pub zts : Bytes
  pub hash : Bytes
  pub time : ℕ

module _ (Z : Zenon) where
  -- the parameters of a call, by their JSON shape
  pub data Param : Type 0 where
    number : ℕ → Param
    text : Bytes → Param
    new_block : NewBlock Z → Param
    plasma_query : Bytes → ℕ → Bytes → Param

  pub record Request : Type 0 where
    pub id : ℕ
    pub method : String
    pub params : List Param

  -- The node, the clock and the disk, with an unknown state, `encoding/json` at the types that
  -- the program decodes, and go-zenon's functions on keys and blocks.
  pub record Host : Type 1 where
    pub Net : Type 0
    pub exchange : Request → Net → Reply × Net
    -- `ctx.Done()` is ready
    pub is_done : Net → Bool × Net
    -- `select` on `ctx.Done()` and `time.After`: true if the context ended first
    pub wait : ℕ → Net → Bool × Net
    -- milliseconds
    pub now : Net → ℕ × Net
    -- a write to the journal's file: how many bytes reached it, and the error if there is one
    pub write : Bytes → Net → (ℕ × Option Err) × Net
    pub sync : Net → Option Err × Net
    -- opening the journal to append to it, and to read it
    pub open_append : Net → Option Err × Net
    pub open_read : Net → Option Err × Net
    pub decode_envelope : Bytes → Result Envelope
    pub decode_momentum : Bytes → Result (Momentum Z)
    pub decode_momentums : Bytes → Result (List (Momentum Z))
    -- these decode amounts by the function that they are given
    pub decode_detailed : (Bytes → Result ℤ) → Bytes → Result (List (DetailedMomentum Z))
    pub decode_block : (Bytes → Result ℤ) → Bytes → Result (AccountBlock Z)
    pub decode_blocks : (Bytes → Result ℤ) → Bytes → Result (List (AccountBlock Z))
    pub decode_balances : (Bytes → Result ℤ) → Bytes → Result (List (Bytes × Option ℤ))
    pub decode_token : Bytes → Result (Token Z)
    pub decode_plasma : Bytes → Result RequiredPlasma
    -- a journal line and its reading
    pub encode_entry : Entry → Bytes
    pub decode_entry : Bytes → Result Entry
    -- `wallet.KeyPair`, `types.PubKeyToAddress`, `ComputeHash` and `pow.GetPoWNonce`
    pub Key : Type 0
    pub public_key : Key → Bytes
    pub key_address : Bytes → Z.Address
    pub sign : Key → Z.Hash → Bytes
    pub compute_hash : NewBlock Z → Z.Hash
    pub pow_nonce : ℕ → NewBlock Z → Bytes

  module _ (H : Host) where
    pub record World : Type 0 where
      pub net : H.Net
      -- `Client.id`
      pub id : ℕ
      -- every request posted, the latest first
      pub posted : List Request
      -- `Sender.lastHash`
      pub last_hash : Z.Hash
      -- the journal's file; `none` if there is none
      pub file : Option Bytes
