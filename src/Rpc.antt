-- ===== src/Rpc.antt =====
-- rpc.go: the JSON-RPC client.
use Prim.Native.String.{String}
use zts_airdrop.Base.{
  ℕ, ◌+◌, ◌%◌, ◌^◌, ◌||◌, List, [], ◌∷◌, ◌++◌, Option, none, some, Bytes, codes, errorf, wrapf, ℤ,
  pos, Result, ok, err, ltb, leb, ◌==◌, if◌then◌else◌, is_empty, length, take,
}
use zts_airdrop.Decimal.{decimal, decimal_int, set_string}
use zts_airdrop.Effect.{M, ◌>>=◌, pure, lift}
use zts_airdrop.Ledger.{Momentum, DetailedMomentum, AccountBlock, Token, NewBlock, RequiredPlasma}
use zts_airdrop.Text.{trim_byte, same_text}
use zts_airdrop.World.{
  Param, number, text, new_block, plasma_query, Envelope, Reply, unreachable, reply, Request, Host,
  World,
}
use zts_airdrop.Zenon.{Zenon}

abbrev pub max_count_size : ℕ
max_count_size = 1024

-- `truncate`
unfoldable pub truncate : Bytes → ℕ → Bytes
truncate b n = if leb (length b) n then b else take n b ++ codes "..."

-- `BigInt.UnmarshalJSON`
unfoldable pub unmarshal_big_int : Bytes → Result ℤ
unfolding same_text
unmarshal_big_int raw =
    let s = trim_byte b'"' raw in
    if is_empty s || same_text s (codes "null") then ok (pos 0) else elim (set_string s) [
      | none ↦ err (errorf "amount %q is not a decimal integer" (s ∷ []))
      | some v ↦ ok v
    ]

-- the end of `call`: the answer's error, then its result
unfoldable pub read_envelope : Bytes → Envelope → Result Bytes
unfolding same_text
read_envelope method env = elim env.error [
  | some e ↦ err (
      wrapf "%s: %w" (method ∷ [])
        (errorf "rpc error %d: %s" (decimal_int e.code ∷ e.message ∷ [])))
  | none ↦ ok env.result
]

unfoldable pub has_result : Bytes → Bytes → Result Bytes
unfolding same_text
has_result method raw =
    if is_empty raw || same_text raw (codes "null")
    then err (errorf "%s: null result" (method ∷ []))
    else ok raw

module _ (Z : Zenon) (H : Host Z) where
  -- the status, the envelope and its error
  unfoldable pub read_reply : Bytes → Reply → Result Bytes
  unfolding truncate read_envelope
  read_reply method (unreachable e) = err (wrapf "%s: %w" (method ∷ []) e)
  read_reply method (reply status body) =
      if status == 200
      then elim (H.decode_envelope body) [
        | err e ↦ err (wrapf "%s: bad json: %w" (method ∷ []) e)
        | ok env ↦ read_envelope method env
      ]
      else err (errorf "%s: http %d: %s" (method ∷ decimal status ∷ truncate body 200 ∷ []))

  -- one HTTP exchange under the next request number
  unfoldable pub post : String → List (Param Z) → World Z H → Reply × World Z H
  post method params w =
      let id = (w.id + 1) % 2 ^ 64 in
      let request : Request Z = record { id = id; method = method; params = params } in
      let (answer, net) = H.exchange request w.net in
      (answer, record w { net = net; id = id; posted = request ∷ w.posted })

  -- `call` with a nil `out`
  unfoldable pub call_ignoring : String → List (Param Z) → M (World Z H) Bytes
  unfolding post read_reply
  call_ignoring method params w =
      let (answer, w') = post method params w in (read_reply (codes method) answer, w')

  -- `call` with an `out` to decode into
  unfoldable pub call :
      {A : Type 0} → String → List (Param Z) → (Bytes → Result A) → M (World Z H) A
  unfolding call_ignoring has_result
  call method params decode = do
    raw ← call_ignoring method params
    result ← lift (has_result (codes method) raw)
    lift (decode result)

  unfoldable pub frontier_momentum : M (World Z H) (Momentum Z)
  unfolding call
  frontier_momentum = call "ledger.getFrontierMomentum" [] H.decode_momentum

  abbrev pub at_most : ℕ → ℕ
  at_most count = if ltb max_count_size count then max_count_size else count

  unfoldable pub momentums_by_height : ℕ → ℕ → M (World Z H) (List (Momentum Z))
  unfolding call
  momentums_by_height height count =
      call "ledger.getMomentumsByHeight" (number height ∷ number (at_most count) ∷ [])
        H.decode_momentums

  unfoldable pub detailed_momentums_by_height : ℕ → ℕ → M (World Z H) (List (DetailedMomentum Z))
  unfolding call
  detailed_momentums_by_height height count =
      call "ledger.getDetailedMomentumsByHeight" (number height ∷ number (at_most count) ∷ [])
        (H.decode_detailed unmarshal_big_int)

  -- `none` if the call fails in any way
  unfoldable pub frontier_account_block : Z.Address → M (World Z H) (Option (AccountBlock Z))
  unfolding call
  frontier_account_block addr w =
      let (found, w') =
        call "ledger.getFrontierAccountBlock" (text (Z.address_string addr) ∷ [])
          (H.decode_block unmarshal_big_int) w in
      (elim found [ ok b ↦ ok (some b) | err e ↦ ok none ], w')

  unfoldable pub account_block_by_hash : Z.Hash → M (World Z H) (AccountBlock Z)
  unfolding call
  account_block_by_hash hash =
      call "ledger.getAccountBlockByHash" (text (Z.hash_string hash) ∷ [])
        (H.decode_block unmarshal_big_int)

  -- the entry of a token in the map of balances
  abbrev pub balance_of : Bytes → List (Bytes × Option ℤ) → ℤ
  balance_of zts [] = pos 0
  balance_of zts ((key, held) ∷ rest) =
      if same_text key zts then elim held [ some v ↦ v | none ↦ pos 0 ] else balance_of zts rest

  unfoldable pub balance : Z.Address → Z.Zts → M (World Z H) ℤ
  unfolding call
  balance addr zts = do
    held ←
        call "ledger.getAccountInfoByAddress" (text (Z.address_string addr) ∷ [])
          (H.decode_balances unmarshal_big_int)
    pure (balance_of (Z.zts_string zts) held)

  unfoldable pub publish_raw_transaction : NewBlock Z → M (World Z H) Bytes
  unfolding call_ignoring
  publish_raw_transaction block =
      call_ignoring "ledger.publishRawTransaction" (new_block block ∷ [])

  unfoldable pub unreceived_blocks : Z.Address → ℕ → ℕ → M (World Z H) (List (AccountBlock Z))
  unfolding call
  unreceived_blocks addr page size =
      call "ledger.getUnreceivedBlocksByAddress"
        (text (Z.address_string addr) ∷ number page ∷ number size ∷ [])
        (H.decode_blocks unmarshal_big_int)

  -- a token with no symbol is not registered
  abbrev pub registered : Z.Zts → Token Z → Result (Token Z)
  registered zts t =
      if is_empty t.symbol
      then err (errorf "no token registered for %s" (Z.zts_string zts ∷ []))
      else ok t

  unfoldable pub token_by_zts : Z.Zts → M (World Z H) (Token Z)
  unfolding call
  token_by_zts zts = do
    t ← call "embedded.token.getByZts" (text (Z.zts_string zts) ∷ []) H.decode_token
    lift (registered zts t)

  unfoldable pub required_pow : Z.Address → Z.Address → ℕ → M (World Z H) RequiredPlasma
  unfolding call
  required_pow from to block_type =
      call "embedded.plasma.getRequiredPoWForAccountBlock"
        (plasma_query (Z.address_string from) block_type (Z.address_string to) ∷ []) H.decode_plasma
