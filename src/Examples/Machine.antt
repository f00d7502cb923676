-- ===== src/Examples/Machine.antt =====
-- A node, a clock and a disk for the witnesses: the node accepts every block, the disk never
-- fails.
use zts_airdrop.Base.{
  List, pos, zero, suc, ℕ, some, ◌<◌, ◌+◌, ◌-◌, ◌≡◌, refl, false, true, [], ◌∷◌, ◌++◌, map, none,
  Bytes, codes, errorf, Result, ok, err, length, arith, All-append,
}
use zts_airdrop.Ledger.{Momentum, AccountBlock}
use zts_airdrop.Zenon.{Zenon}
use zts_airdrop.Journal.ReadBack.{IsJson}
use zts_airdrop.Text.{cut}
use zts_airdrop.Text.Laws.{Lacks, cut_at}
use zts_airdrop.World.{Entry, Reply, reply, Param, number, text, new_block, plasma_query, Host}

-- an entry as one line: numbers shifted past the control characters, texts ended by a zero
abbrev shifted : Bytes → Bytes
shifted = map (λ c. c + 20)

abbrev restored : Bytes → Bytes
restored = map (λ c. c - 20)

abbrev line_of : Entry → Bytes
line_of e =
    (e.index + 20)
    ∷ (e.time + 20)
    ∷ (shifted e.run
        ++ (0
            ∷ (shifted e.address
                ++ (0 ∷ (shifted e.amount ++ (0 ∷ (shifted e.zts ++ (0 ∷ shifted e.hash))))))))

abbrev texts_of : ℕ → ℕ → Bytes → Result Entry
texts_of index time s =
    let run = cut 0 s in
    let address = cut 0 run.after in
    let amount = cut 0 address.after in
    let zts = cut 0 amount.after in
    ok (record {
      run = restored run.before;
      index = index - 20;
      address = restored address.before;
      amount = restored amount.before;
      zts = restored zts.before;
      hash = restored zts.after;
      time = time - 20;
    })

abbrev entry_of : Bytes → Result Entry
entry_of [] = err (errorf "not an entry" [])
entry_of (a ∷ []) = err (errorf "not an entry" [])
entry_of (a ∷ b ∷ s) = texts_of a b s

restored-shifted : (s : Bytes) → restored (shifted s) ≡ s
restored-shifted [] = refl
restored-shifted (c ∷ s) = let e : c + 20 - 20 ≡ c = omega arith in rw (e, restored-shifted s)

shifted-Lacks : (k : ℕ) (s : Bytes) → k < 20 → Lacks k (shifted s)
shifted-Lacks k [] h = tt
shifted-Lacks k (c ∷ s) h = ((λ e. omega arith), shifted-Lacks k s h)

cut-shifted :
    (s f : Bytes)
    → cut 0 (shifted s ++ (0 ∷ f)) ≡ record { before = shifted s; after = f; found = true }
cut-shifted s f = cut_at 0 (shifted s) f (shifted-Lacks 0 s (omega arith))

field-Lacks : (k : ℕ) (s f : Bytes) → 0 < k → k < 20 → Lacks k f → Lacks k (shifted s ++ (0 ∷ f))
field-Lacks k s f h1 h2 h =
    All-append _ (shifted s) (0 ∷ f) (shifted-Lacks k s h2) ((λ e. omega arith), h)

entry_of-line_of : (e : Entry) → entry_of (line_of e) ≡ ok e
entry_of-line_of e =
    let i : e.index + 20 - 20 ≡ e.index = omega arith in
    let t : e.time + 20 - 20 ≡ e.time = omega arith in
    rw (cut-shifted e.run _) (
      rw (cut-shifted e.address _) (
        rw (cut-shifted e.amount _) (
          rw (cut-shifted e.zts _) (
            rw
              (
                i,
                t,
                restored-shifted e.run,
                restored-shifted e.address,
                restored-shifted e.amount,
                restored-shifted e.zts,
                restored-shifted e.hash,
              )
              refl))))

line-Lacks : (k : ℕ) (e : Entry) → 0 < k → k < 20 → Lacks k (line_of e)
line-Lacks k e h1 h2 = (
  λ x. omega arith,
  (
    λ x. omega arith,
    field-Lacks k e.run _ h1 h2 (
        field-Lacks k e.address _ h1 h2 (
          field-Lacks k e.amount _ h1 h2
            (field-Lacks k e.zts (shifted e.hash) h1 h2 (shifted-Lacks k e.hash h2)))),
  ),
)

-- the blocks are numbered from 1, and the state is the height of the account's frontier
abbrev answer_to : {Z : Zenon} → List (Param Z) → ℕ → Reply × ℕ
answer_to (new_block b ∷ rest) n = (reply 200 (b.height ∷ []), b.height)
answer_to (number k ∷ rest) n = (reply 200 (n ∷ []), n)
answer_to (text s ∷ rest) n = (reply 200 (n ∷ []), n)
answer_to (plasma_query a k b ∷ rest) n = (reply 200 (n ∷ []), n)
answer_to [] n = (reply 200 (n ∷ []), n)

module _ (Z : Zenon) (hash_of : ℕ → Z.Hash) where
  abbrev momentum : Momentum Z
  momentum = record {
    version = 1;
    chain_identifier = 1;
    hash = hash_of 8;
    previous_hash = hash_of 7;
    height = 8;
    timestamp = pos 80;
    content = [];
    producer = Z.zero_address;
  }

  abbrev block_at : ℕ → AccountBlock Z
  block_at h = record {
    block_type = 2;
    hash = hash_of h;
    previous_hash = hash_of (h - 1);
    height = h;
    address = Z.zero_address;
    to_address = Z.zero_address;
    amount = pos 0;
    token_standard = Z.zero_zts;
    from_block_hash = Z.zero_hash;
    confirmation_detail = none;
  }

  abbrev frontier_at : Bytes → Result (AccountBlock Z)
  frontier_at [] = err (errorf "bad json" [])
  frontier_at (zero ∷ rest) = err (errorf "bad json" [])
  frontier_at (suc h ∷ rest) = ok (block_at (suc h))

  -- a block waits for an account that has published none
  abbrev pending : Bytes → List (AccountBlock Z)
  pending [] = []
  pending (zero ∷ rest) = block_at 7 ∷ []
  pending (suc h ∷ rest) = []

  abbrev pub machine : Host Z
  machine = record {
    Net = ℕ;
    exchange = λ r n. answer_to {Z = Z} r.params n;
    is_done = λ n. (false, n);
    wait = λ t n. (false, n);
    now = λ n. (42, n);
    write = λ s n. ((length s, none), n);
    sync = λ n. (none, n);
    open_append = λ n. (none, n);
    open_read = λ n. (none, n);
    decode_envelope = λ s. ok (record { result = s; error = none });
    decode_momentum = λ s. ok momentum;
    decode_momentums = λ s. ok (momentum ∷ []);
    decode_detailed = λ f s. ok [];
    decode_block = λ f s. frontier_at s;
    decode_blocks = λ f s. ok (pending s);
    decode_balances = λ f s. ok ((Z.zts_string Z.zero_zts, some (pos 100)) ∷ []);
    decode_token = λ s. ok (record {
      name = codes "C";
      symbol = codes "C";
      decimals = 0;
      token_standard = Z.zero_zts;
    });
    decode_plasma =
        λ s. ok (record { available_plasma = 0; base_plasma = 21000; required_difficulty = 0 });
    encode_entry = line_of;
    decode_entry = entry_of;
    Key = ℕ;
    public_key = λ k. k ∷ [];
    key_address = λ p. Z.zero_address;
    sign = λ k h. k ∷ [];
    compute_hash = λ b. hash_of b.height;
    pow_nonce = λ d b. [];
  }

  pub machine-IsJson : IsJson Z machine
  machine-IsJson = record {
    decode-encode = entry_of-line_of;
    one_line = λ e. line-Lacks 10 e (omega arith) (omega arith);
    no_return = λ e. line-Lacks 13 e (omega arith) (omega arith);
    nonempty = λ e. refl;
  }
