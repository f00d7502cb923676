-- ===== src/Sender/Receiving.antt =====
-- send.go: `ReceiveAll`, which takes delivery of what was sent to the account.
use zts_airdrop.Base.{
  ℕ, zero, suc, ◌+◌, ◌≤◌, ◌≡◌, refl, ap, ◌∙◌, inl, inr, true, false, List, [], ◌∷◌, ◌++◌, Option,
  none, some, Err, canceled, diverges, wrapf, ok, err, arith, map, length, length-append, sym,
  append_assoc, append-nil, Option-cases, Bool-cases, Result-cases, All, All-append,
}
use mathlib.Core.List.{map-append}
use zts_airdrop.Ledger.{AccountBlock}
use zts_airdrop.Rpc.{unreceived_blocks}
use zts_airdrop.Sender.{Sender, receive}
use zts_airdrop.Sender.Posts.{taking, payments, unreceived_blocks-IsQuiet}
use zts_airdrop.Sender.Sent.{receive-IsSent}
use zts_airdrop.World.{Host, World}
use zts_airdrop.Zenon.{Zenon}

module _ (Z : Zenon) (H : Host Z) where
  -- the blocks of one round of `ReceiveAll`, and how many were received before them
  unfoldable pub receive_each :
      Sender Z H → ℕ → List (AccountBlock Z) → World Z H → (ℕ × Option Err) × World Z H
  receive_each s received [] w = ((received, none), w)
  receive_each s received (b ∷ rest) w =
      let (ended, net) = H.is_done w.net in
      let (answer, w') = receive Z H s b.hash (record w { net = net }) in
      elim ended [
        | true ↦ ((received, some canceled), record w { net = net })
        | false ↦ elim answer [
          | err e ↦ ((received, some (wrapf "receive %s: %w" (Z.hash_string b.hash ∷ []) e)), w')
          | ok hash ↦ receive_each s (received + 1) rest w'
        ]
      ]

  -- the rounds of `ReceiveAll`, on fuel
  unfoldable pub receive_rounds : ℕ → Sender Z H → ℕ → World Z H → (ℕ × Option Err) × World Z H
  receive_rounds zero s received w = ((received, some diverges), w)
  receive_rounds (suc fuel) s received w =
      let (pending, w') = unreceived_blocks Z H s.addr 0 50 w in
      elim pending [
        | err e ↦ ((received, some (wrapf "unreceived blocks: %w" [] e)), w')
        | ok [] ↦ ((received, none), w')
        | ok (b ∷ rest) ↦
            let ((received', failure), w'') = receive_each s received (b ∷ rest) w' in
            elim failure [
              | some e ↦ ((received', some e), w'')
              | none ↦ receive_rounds fuel s received' w''
            ]
      ]

  -- `ReceiveAll`
  unfoldable pub receive_all : ℕ → Sender Z H → World Z H → (ℕ × Option Err) × World Z H
  unfolding receive_rounds receive_each
  receive_all fuel s w = receive_rounds fuel s 0 w

  -- the node listed a block of this hash as pending for the account
  pub record IsListed (s : Sender Z H) (h : Z.Hash) : Type 0 where
    pub asked : World Z H
    pub block : AccountBlock Z
    pub before : List (AccountBlock Z)
    pub after : List (AccountBlock Z)
    pub listed : (unreceived_blocks Z H s.addr 0 50 asked).0 ≡ ok (before ++ (block ∷ after))
    pub named : block.hash ≡ h

  hashes-IsListed :
      (s : Sender Z H) (w : World Z H) (before blocks : List (AccountBlock Z))
      → (unreceived_blocks Z H s.addr 0 50 w).0 ≡ ok (before ++ blocks)
      → All (IsListed s) (map (λ (b : AccountBlock Z). b.hash) blocks)
  hashes-IsListed s w before [] e = tt
  hashes-IsListed s w before (b ∷ rest) e = (
    record { asked = w; block = b; before = before; after = rest; listed = e; named = refl },
    hashes-IsListed s w (before ++ (b ∷ [])) rest
        (e ∙ ap ok (sym (append_assoc before (b ∷ []) rest))),
  )

  -- what taking delivery did: the receives of some blocks posted and nothing else, at least as
  -- many as it counts and just as many if there is no error, all of them of blocks that the node listed for the
  -- account, and the file as it was
  pub record IsCollected (s : Sender Z H) (w : World Z H) (received : ℕ)
      (q : (ℕ × Option Err) × World Z H) : Type 0 where
    pub handed_in : List Z.Hash
    pub posted : payments Z q.1.posted ≡ payments Z w.posted ++ map (taking Z) handed_in
    pub counted : q.0.0 ≤ received + length handed_in
    pub from_list : All (IsListed s) handed_in
    pub all_counted : q.0.1 ≡ none → q.0.0 ≡ received + length handed_in
    pub file_kept : q.1.file ≡ w.file

  -- some blocks more, and then the rest
  behind_blocks :
      (s : Sender Z H) (k : List Z.Hash) (received more : ℕ) (w v : World Z H)
      (q : (ℕ × Option Err) × World Z H)
      → payments Z v.posted ≡ payments Z w.posted ++ map (taking Z) k
      → v.file ≡ w.file
      → more ≤ received + length k
      → All (IsListed s) k
      → (q.0.1 ≡ none → more ≡ received + length k)
      → IsCollected s v more q
      → IsCollected s w received q
  behind_blocks s k received more w v q e f b a c x = record {
    handed_in = k ++ x.handed_in;
    posted =
        x.posted
        ∙ ap (λ l. l ++ map (taking Z) x.handed_in) e
        ∙ append_assoc (payments Z w.posted) (map (taking Z) k) (map (taking Z) x.handed_in)
        ∙ ap (λ l. payments Z w.posted ++ l) (sym (map-append (taking Z) k x.handed_in));
    counted = rw (length-append k x.handed_in) (omega (arith, x.counted));
    from_list = All-append (IsListed s) k x.handed_in a x.from_list;
    all_counted = λ went.
        let all = x.all_counted went in
        let first = c went in rw (length-append k x.handed_in) (omega (arith, all, first));
    file_kept = x.file_kept ∙ f;
  }

  nothing_more :
      (s : Sender Z H) (received : ℕ) (w v : World Z H) (failure : Option Err)
      → payments Z v.posted ≡ payments Z w.posted
      → v.file ≡ w.file
      → IsCollected s w received ((received, failure), v)
  nothing_more s received w v failure e f = record {
    handed_in = [];
    posted = rw append-nil e;
    counted = omega arith;
    from_list = tt;
    all_counted = λ went. omega arith;
    file_kept = f;
  }

  receive_each-IsCollected :
      (s : Sender Z H) (received : ℕ) (blocks : List (AccountBlock Z)) (w : World Z H)
      → All (IsListed s) (map (λ (b : AccountBlock Z). b.hash) blocks)
      → IsCollected s w received (receive_each s received blocks w)
  unfolding receive_each
  receive_each-IsCollected s received [] w pending = nothing_more s received w w none refl refl
  receive_each-IsCollected s received (b ∷ rest) w pending =
      let v = record w { net = (H.is_done w.net).1 } in
      let handed = receive-IsSent Z H s b.hash v in
      elim (Bool-cases (H.is_done w.net).0) [
        | inl ended ↦
            rw (ended, receive_each) (nothing_more s received w v (some canceled) refl refl)
        | inr going ↦ elim (Result-cases (receive Z H s b.hash v).0) [
          | inl (hash, took) ↦
              rw (going, took, receive_each)
                (behind_blocks s (b.hash ∷ []) received (received + 1) w (receive Z H s b.hash v).1
                  _ (handed.one_if_ok hash took) handed.file_kept (omega arith) (pending.0, tt)
                  (λ went. omega arith)
                  (receive_each-IsCollected s (received + 1) rest (receive Z H s b.hash v).1
                    pending.1))
          | inr (e, failed) ↦
              rw (going, failed, receive_each)
                (elim handed.at_most_one [
                  | inl nothing ↦ nothing_more s received w _ _ nothing handed.file_kept
                  | inr one ↦
                      behind_blocks s (b.hash ∷ []) received received w (receive Z H s b.hash v).1 _
                        one handed.file_kept (omega arith) (pending.0, tt)
                        (λ went. absurd (ground arith))
                        (nothing_more s received (receive Z H s b.hash v).1 _ _ refl refl)
                ])
        ]
      ]

  -- a list received, and then the rest
  pub chained :
      (s : Sender Z H) {received more : ℕ} {w v : World Z H} {failure : Option Err}
      {q : (ℕ × Option Err) × World Z H}
      → IsCollected s w received ((more, failure), v)
      → failure ≡ none
      → IsCollected s v more q
      → IsCollected s w received q
  chained s {received} {more} {w} {v} {failure} {q} x went y =
      behind_blocks s x.handed_in received more w v q x.posted x.file_kept x.counted x.from_list
        (λ _. x.all_counted went) y

  receive_rounds-IsCollected :
      (fuel : ℕ) (s : Sender Z H) (received : ℕ) (w : World Z H)
      → IsCollected s w received (receive_rounds fuel s received w)
  unfolding receive_rounds
  receive_rounds-IsCollected zero s received w = nothing_more s received w w _ refl refl
  receive_rounds-IsCollected (suc fuel) s received w =
      let asked = unreceived_blocks Z H s.addr 0 50 w in
      let quiet = unreceived_blocks-IsQuiet Z H s.addr 0 50 w in
      elim (Result-cases asked.0) [
        | inr (e, failed) ↦
            rw (failed, receive_rounds)
              (nothing_more s received w asked.1 _ quiet.same_posts quiet.same_file)
        | inl ([], e) ↦
            rw (e, receive_rounds)
              (nothing_more s received w asked.1 _ quiet.same_posts quiet.same_file)
        | inl (b ∷ rest, e) ↦
            let each = receive_each s received (b ∷ rest) asked.1 in
            let taken =
              behind_blocks s [] received received w asked.1 each (rw append-nil quiet.same_posts)
                quiet.same_file (omega arith) tt (λ _. omega arith)
                (receive_each-IsCollected s received (b ∷ rest) asked.1
                  (hashes-IsListed s w [] (b ∷ rest) e)) in
            elim (Option-cases each.0.1) [
              | inr (x, stopped) ↦ rw (e, stopped, receive_rounds) (rw stopped at taken)
              | inl going ↦
                  rw (e, going, receive_rounds)
                    (chained s (rw going at taken) refl
                      (receive_rounds-IsCollected fuel s each.0.0 each.1))
            ]
      ]

  -- Whatever the node answers and wherever it stops, ReceiveAll posts the receives of blocks
  -- that the node listed as pending for the account, and no other block, each to the zero
  -- address and of no amount, at least as many as it counts and, if it returns no error, just
  -- as many; and it leaves the journal's file as it was.
  pub receive_all-IsCollected :
      (fuel : ℕ) (s : Sender Z H) (w : World Z H) → IsCollected s w 0 (receive_all fuel s w)
  unfolding receive_all
  receive_all-IsCollected fuel s w = receive_rounds-IsCollected fuel s 0 w
