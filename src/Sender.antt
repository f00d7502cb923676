-- ===== src/Sender.antt =====
-- send.go: one account's blocks, built on its frontier, signed and published.
pub mod Posts
pub mod Sent
pub mod Receiving
pub mod Waiting
pub mod Linked
use zts_airdrop.Base.{
  ℕ, zero, suc, ◌+◌, ◌%◌, ◌^◌, ◌||◌, [], ◌∷◌, Option, true, false, none, some, Err, canceled,
  diverges, errorf, wrapf, ℤ, pos, ok, err, ltb, ◌==◌, if◌then◌else◌,
}
use zts_airdrop.Decimal.{decimal}
use zts_airdrop.Effect.{M, ◌>>=◌, next, pure, wrapping}
use zts_airdrop.Ledger.{Momentum, AccountBlock, NewBlock, RequiredPlasma}
use zts_airdrop.Rpc.{
  frontier_momentum, frontier_account_block, publish_raw_transaction, required_pow,
  unreceived_blocks,
}
use zts_airdrop.World.{Host, World}
use zts_airdrop.Zenon.{Zenon, same_hash}

abbrev pub block_version : ℕ
block_version = 1

abbrev pub block_type_user_send : ℕ
block_type_user_send = 2

abbrev pub block_type_user_receive : ℕ
block_type_user_receive = 3

-- rounds of the frontier's loop: `FrontierWait` in steps of half a second, and two more
abbrev pub rounds : ℕ
rounds = 182

module _ (Z : Zenon) (H : Host Z) where
  -- the fixed fields of a `Sender`; its `lastHash` is in the world
  pub record Sender : Type 0 where
    pub key : H.Key
    pub addr : Z.Address
    pub chain : ℕ
    pub frontier_wait : ℕ

  unfoldable pub new_sender : H.Key → ℕ → Sender
  new_sender key chain_id = record {
    key = key;
    addr = H.key_address (H.public_key key);
    chain = chain_id;
    frontier_wait = 90000;
  }

  -- the height and the previous hash of the next block
  pub record Frontier : Type 0 where
    pub height : ℕ
    pub previous : Z.Hash

  -- the `switch`: what the node's frontier means for the next block, if anything yet
  unfoldable pub accept_frontier : Z.Hash → Option (AccountBlock Z) → Option Frontier
  accept_frontier last none =
      if same_hash Z last Z.zero_hash
      then some (record { height = 1; previous = Z.zero_hash })
      else none
  accept_frontier last (some b) =
      if same_hash Z last Z.zero_hash || same_hash Z b.hash last
      then some (record { height = (b.height + 1) % 2 ^ 64; previous = b.hash })
      else none

  -- the deadline, then half a second's wait; true once the wait is over
  unfoldable pub hold : Sender → ℕ → M (World Z H) (Unit {0})
  hold s deadline w =
      let (t, net) = H.now w.net in
      let (ended, net') = H.wait 500 net in
      if ltb deadline t
      then (
        err (
            errorf "node did not report block %s as the account frontier within %s"
              (Z.hash_string w.last_hash ∷ decimal s.frontier_wait ∷ [])),
        record w { net = net },
      )
      else if ended
      then (err canceled, record w { net = net' })
      else (ok tt, record w { net = net' })

  unfoldable pub frontier_loop : ℕ → Sender → ℕ → M (World Z H) Frontier
  frontier_loop zero s deadline w = (err diverges, w)
  frontier_loop (suc fuel) s deadline w =
      next
        (λ found w'. elim (accept_frontier w'.last_hash found) [
          | some f ↦ (ok f, w')
          | none ↦ next (λ _ w''. frontier_loop fuel s deadline w'') (hold s deadline w')
        ])
        (wrapping (wrapf "frontier account block: %w" []) (frontier_account_block Z H s.addr) w)

  unfoldable pub frontier : Sender → M (World Z H) Frontier
  unfolding frontier_loop
  frontier s w =
      let (t, net) = H.now w.net in
      frontier_loop rounds s (t + s.frontier_wait) (record w { net = net })

  -- `payPlasma`: fused plasma if the node asks for no work, else a nonce
  unfoldable pub with_plasma : RequiredPlasma → NewBlock Z → NewBlock Z
  with_plasma req block =
      let worked = record block {
        fused_plasma = req.available_plasma;
        difficulty = req.required_difficulty;
      } in
      if req.required_difficulty == 0
      then record block { fused_plasma = req.base_plasma; difficulty = 0; nonce = [] }
      else record worked { nonce = H.pow_nonce req.required_difficulty worked }

  unfoldable pub pay_plasma : NewBlock Z → M (World Z H) (NewBlock Z)
  unfolding with_plasma
  pay_plasma block = do
    req ←
        wrapping (wrapf "required plasma: %w" [])
          (required_pow Z H block.address block.to_address block.block_type)
    pure (with_plasma req block)

  -- hash and signature
  unfoldable pub seal : Sender → NewBlock Z → NewBlock Z
  seal s block =
      let hash = H.compute_hash block in record block { hash = hash; signature = H.sign s.key hash }

  -- the block's fields before plasma, hash and signature
  unfoldable pub draft :
      Sender → ℕ → Frontier → Momentum Z → Z.Address → ℤ → Z.Zts → Z.Hash → NewBlock Z
  draft s block_type f m to amount zts from = record {
    version = block_version;
    chain_identifier = s.chain;
    block_type = block_type;
    hash = Z.zero_hash;
    previous_hash = f.previous;
    height = f.height;
    momentum_hash = m.hash;
    momentum_height = m.height;
    address = s.addr;
    to_address = to;
    amount = amount;
    token_standard = zts;
    from_block_hash = from;
    fused_plasma = 0;
    difficulty = 0;
    nonce = [];
    public_key = H.public_key s.key;
    signature = [];
  }

  -- `s.lastHash = block.Hash`
  abbrev pub remember : Z.Hash → M (World Z H) (Unit {0})
  remember hash w = (ok tt, record w { last_hash = hash })

  -- what `Send` and `Receive` share behind the frontier and the momentum
  unfoldable pub submit : Sender → (Err → Err) → NewBlock Z → M (World Z H) Z.Hash
  unfolding seal
  submit s publishing block = do
    paid ← pay_plasma block
    let sealed = seal s paid
    answer ← wrapping publishing (publish_raw_transaction Z H sealed)
    _ ← remember sealed.hash
    pure sealed.hash

  abbrev pub amount_or_zero : Option ℤ → ℤ
  amount_or_zero none = pos 0
  amount_or_zero (some v) = v

  unfoldable pub send : Sender → Z.Address → Option ℤ → Z.Zts → M (World Z H) Z.Hash
  unfolding draft
  send s to amount zts = do
    f ← frontier s
    m ← wrapping (wrapf "frontier momentum: %w" []) (frontier_momentum Z H)
    submit s (wrapf "publish: %w" [])
        (draft s block_type_user_send f m to (amount_or_zero amount) zts Z.zero_hash)

  unfoldable pub receive : Sender → Z.Hash → M (World Z H) Z.Hash
  unfolding draft
  receive s from = do
    f ← frontier s
    m ← wrapping (wrapf "frontier momentum: %w" []) (frontier_momentum Z H)
    submit s (wrapf "publish receive: %w" [])
        (draft s block_type_user_receive f m Z.zero_address (pos 0) Z.zero_zts from)

  -- `EstimatePlasma`
  unfoldable pub estimate_plasma : Sender → Z.Address → M (World Z H) RequiredPlasma
  estimate_plasma s to = required_pow Z H s.addr to block_type_user_send
