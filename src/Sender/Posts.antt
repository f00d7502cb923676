-- ===== src/Sender/Posts.antt =====
-- What a send puts on the wire, and that it leaves the journal's file alone.
use Prim.Native.String.{String}
use zts_airdrop.Base.{
  ℕ, zero, suc, ◌+◌, ◌≡◌, refl, ◌∙◌, inl, inr, List, [], ◌∷◌, ◌++◌, Option, none, some, Bytes,
  codes, Err, Result, ok, err, Bool-cases, Option-cases, wrapf, ltb, ℤ, pos,
}
use zts_airdrop.Effect.{M, next, wrapping, wrap_err, pure, lift}
use zts_airdrop.Ledger.{NewBlock}
use zts_airdrop.Rpc.{
  post, call_ignoring, call, has_result, frontier_momentum, frontier_account_block, required_pow,
  momentums_by_height, detailed_momentums_by_height, unreceived_blocks, balance, balance_of,
  registered, token_by_zts, unmarshal_big_int,
}
use zts_airdrop.Sender.{
  Sender, accept_frontier, hold, frontier_loop, frontier, rounds, estimate_plasma,
}
use zts_airdrop.World.{Param, number, text, new_block, plasma_query, Request, Host, World}
use zts_airdrop.Zenon.{Zenon}

module _ (Z : Zenon) where
  -- what a block moves: its type, where to, how much of which token, and which block it receives
  pub record Carried : Type 0 where
    pub block_type : ℕ
    pub to_address : Z.Address
    pub amount : ℤ
    pub token_standard : Z.Zts
    pub from_block_hash : Z.Hash

  abbrev pub carried : NewBlock Z → Carried
  carried b = record {
    block_type = b.block_type;
    to_address = b.to_address;
    amount = b.amount;
    token_standard = b.token_standard;
    from_block_hash = b.from_block_hash;
  }

  -- a payment of an amount of a token
  abbrev pub paying : ℤ → Z.Zts → Z.Address → Carried
  paying amount zts to = record {
    block_type = 2;
    to_address = to;
    amount = amount;
    token_standard = zts;
    from_block_hash = Z.zero_hash;
  }

  -- the receive of a block, which moves nothing out
  abbrev pub taking : Z.Hash → Carried
  taking from = record {
    block_type = 3;
    to_address = Z.zero_address;
    amount = pos 0;
    token_standard = Z.zero_zts;
    from_block_hash = from;
  }

  -- what the block moves that a request publishes
  abbrev pub payee : List (Param Z) → Option Carried
  payee (new_block b ∷ rest) = some (carried b)
  payee (number n ∷ rest) = none
  payee (text s ∷ rest) = none
  payee (plasma_query a n b ∷ rest) = none
  payee [] = none

  abbrev pub behind : List Carried → Option Carried → List Carried
  behind before none = before
  behind before (some a) = before ++ (a ∷ [])

  -- what the blocks posted move, the earliest first
  abbrev pub payments : List (Request Z) → List Carried
  payments [] = []
  payments (r ∷ rest) = behind (payments rest) (payee r.params)

module _ (Z : Zenon) (H : Host Z) where
  -- no block posted, and the file as it was
  pub record IsQuiet (w w' : World Z H) : Type 0 where
    pub same_posts : payments Z w'.posted ≡ payments Z w.posted
    pub same_file : w'.file ≡ w.file
    pub same_last : w'.last_hash ≡ w.last_hash

  pub unmoved : (w : World Z H) → IsQuiet w w
  unmoved w = record { same_posts = refl; same_file = refl; same_last = refl }

  pub chained : {u v w : World Z H} → IsQuiet u v → IsQuiet v w → IsQuiet u w
  chained x y = record {
    same_posts = y.same_posts ∙ x.same_posts;
    same_file = y.same_file ∙ x.same_file;
    same_last = y.same_last ∙ x.same_last;
  }

  next_world :
      {A B : Type 0} (f : A → M (World Z H) B) (r : Result A × World Z H)
      → ((a : A) → (f a r.1).1 ≡ r.1)
      → (next f r).1 ≡ r.1
  next_world f (ok a, v) k = k a
  next_world f (err e, v) k = refl

  pub wrap_world : {A : Type 0} (f : Err → Err) (r : Result A × World Z H) → (wrap_err f r).1 ≡ r.1
  wrap_world f (ok a, v) = refl
  wrap_world f (err e, v) = refl

  pub call_world :
      {A : Type 0} (method : String) (params : List (Param Z)) (decode : Bytes → Result A)
      (w : World Z H)
      → (call Z H method params decode w).1 ≡ (post Z H method params w).1
  unfolding call call_ignoring
  call_world {A} method params decode w = next_world _ (call_ignoring Z H method params w) (λ raw.
      next_world (λ (result : Bytes) v. (decode result, v))
        (has_result (codes method) raw, (call_ignoring Z H method params w).1) (λ a. refl))

  post-IsQuiet :
      (method : String) (params : List (Param Z)) (w : World Z H)
      → payee Z params ≡ none
      → IsQuiet w (post Z H method params w).1
  unfolding post
  post-IsQuiet method params w e = record {
    same_posts = rw e refl;
    same_file = refl;
    same_last = refl;
  }

  call-IsQuiet :
      {A : Type 0} (method : String) (params : List (Param Z)) (decode : Bytes → Result A)
      (w : World Z H)
      → payee Z params ≡ none
      → IsQuiet w (call Z H method params decode w).1
  call-IsQuiet method params decode w e =
      rw (call_world method params decode w) (post-IsQuiet method params w e)

  pub frontier_account_block-IsQuiet :
      (a : Z.Address) (w : World Z H) → IsQuiet w (frontier_account_block Z H a w).1
  unfolding frontier_account_block
  frontier_account_block-IsQuiet a w = call-IsQuiet _ _ _ w refl

  pub wrapping-IsQuiet :
      {A : Type 0} (f : Err → Err) (m : M (World Z H) A) (w : World Z H)
      → IsQuiet w (m w).1
      → IsQuiet w (wrapping f m w).1
  wrapping-IsQuiet f m w q = rw (wrap_world f (m w)) q

  pub hold-IsQuiet :
      (s : Sender Z H) (deadline : ℕ) (w : World Z H) → IsQuiet w (hold Z H s deadline w).1
  unfolding hold
  hold-IsQuiet s deadline w = elim (Bool-cases (ltb deadline (H.now w.net).0)) [
    | inl late ↦ rw late (record { same_posts = refl; same_file = refl; same_last = refl })
    | inr early ↦ elim (Bool-cases (H.wait 500 (H.now w.net).1).0) [
      | inl ended ↦
          rw (early, ended) (record { same_posts = refl; same_file = refl; same_last = refl })
      | inr waited ↦
          rw (early, waited) (record { same_posts = refl; same_file = refl; same_last = refl })
    ]
  ]

  next-IsQuiet :
      {A B : Type 0} (f : A → M (World Z H) B) (w : World Z H) (r : Result A × World Z H)
      → IsQuiet w r.1
      → ((a : A) → IsQuiet r.1 (f a r.1).1)
      → IsQuiet w (next f r).1
  next-IsQuiet f w (ok a, v) q k = chained q (k a)
  next-IsQuiet f w (err e, v) q k = q

  frontier_loop-IsQuiet :
      (fuel : ℕ) (s : Sender Z H) (deadline : ℕ) (w : World Z H)
      → IsQuiet w (frontier_loop Z H fuel s deadline w).1
  unfolding frontier_loop
  frontier_loop-IsQuiet zero s deadline w = unmoved w
  frontier_loop-IsQuiet (suc fuel) s deadline w =
      let asked =
        wrapping (wrapf "frontier account block: %w" []) (frontier_account_block Z H s.addr) in
      next-IsQuiet _ w (asked w)
        (wrapping-IsQuiet _ (frontier_account_block Z H s.addr) w
          (frontier_account_block-IsQuiet s.addr w))
        (λ found. elim (Option-cases (accept_frontier Z H (asked w).1.last_hash found)) [
          | inr (f, accepted) ↦ rw accepted (unmoved (asked w).1)
          | inl none_yet ↦ rw none_yet (
              next-IsQuiet _ (asked w).1 (hold Z H s deadline (asked w).1)
                (hold-IsQuiet s deadline (asked w).1)
                (λ _. frontier_loop-IsQuiet fuel s deadline (hold Z H s deadline (asked w).1).1))
        ])

  pub frontier-IsQuiet : (s : Sender Z H) (w : World Z H) → IsQuiet w (frontier Z H s w).1
  unfolding frontier
  frontier-IsQuiet s w =
      let (t, net) = H.now w.net in
      let looped = frontier_loop-IsQuiet rounds s (t + s.frontier_wait) (record w { net = net }) in
      record {
        same_posts = looped.same_posts;
        same_file = looped.same_file;
        same_last = looped.same_last;
      }

  pub frontier_momentum-IsQuiet : (w : World Z H) → IsQuiet w (frontier_momentum Z H w).1
  unfolding frontier_momentum
  frontier_momentum-IsQuiet w = call-IsQuiet _ _ _ w refl

  pub required_pow-IsQuiet :
      (a b : Z.Address) (n : ℕ) (w : World Z H) → IsQuiet w (required_pow Z H a b n w).1
  unfolding required_pow
  required_pow-IsQuiet a b n w = call-IsQuiet _ _ _ w refl

  pub unreceived_blocks-IsQuiet :
      (a : Z.Address) (page size : ℕ) (w : World Z H)
      → IsQuiet w (unreceived_blocks Z H a page size w).1
  unfolding unreceived_blocks
  unreceived_blocks-IsQuiet a page size w = call-IsQuiet _ _ _ w refl

  pub balance-IsQuiet :
      (a : Z.Address) (zts : Z.Zts) (w : World Z H) → IsQuiet w (balance Z H a zts w).1
  unfolding balance
  balance-IsQuiet a zts w =
      let asking =
        call Z H "ledger.getAccountInfoByAddress" (text (Z.address_string a) ∷ [])
          (H.decode_balances unmarshal_big_int) in
      rw
        (next_world (λ held. pure (balance_of Z H (Z.zts_string zts) held)) (asking w)
          (λ held. refl))
        (call-IsQuiet _ _ _ w refl)

  pub token_by_zts-IsQuiet : (zts : Z.Zts) (w : World Z H) → IsQuiet w (token_by_zts Z H zts w).1
  unfolding token_by_zts
  token_by_zts-IsQuiet zts w =
      let asking =
        call Z H "embedded.token.getByZts" (text (Z.zts_string zts) ∷ []) H.decode_token in
      rw (next_world (λ t. lift (registered Z H zts t)) (asking w) (λ t. refl))
        (call-IsQuiet _ _ _ w refl)

  pub estimate_plasma-IsQuiet :
      (s : Sender Z H) (to : Z.Address) (w : World Z H) → IsQuiet w (estimate_plasma Z H s to w).1
  unfolding estimate_plasma
  estimate_plasma-IsQuiet s to w = required_pow-IsQuiet s.addr to _ w

  pub momentums_by_height-IsQuiet :
      (height count : ℕ) (w : World Z H) → IsQuiet w (momentums_by_height Z H height count w).1
  unfolding momentums_by_height
  momentums_by_height-IsQuiet height count w = call-IsQuiet _ _ _ w refl

  pub detailed_momentums_by_height-IsQuiet :
      (height count : ℕ) (w : World Z H)
      → IsQuiet w (detailed_momentums_by_height Z H height count w).1
  unfolding detailed_momentums_by_height
  detailed_momentums_by_height-IsQuiet height count w = call-IsQuiet _ _ _ w refl
