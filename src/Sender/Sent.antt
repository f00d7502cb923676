-- ===== src/Sender/Sent.antt =====
-- A send posts at most its own block.
use zts_airdrop.Base.{
  ◌≡◌, refl, sym, ap, ◌∙◌, ◌⊎◌, inl, inr, [], ◌∷◌, ◌++◌, Option, Bytes, Err, ℤ, Result, ok, err,
  arith, wrapf, Bool-cases, ◌==◌,
}
use zts_airdrop.Effect.{M, ◌>>=◌, next, wrapping, wrap_err}
use zts_airdrop.Ledger.{Momentum, NewBlock, RequiredPlasma}
use zts_airdrop.Rpc.{post, call_ignoring, frontier_momentum, required_pow, publish_raw_transaction}
use zts_airdrop.Sender.{
  Sender, frontier, pay_plasma, submit, send, receive, Frontier, with_plasma, seal, draft,
  amount_or_zero,
}
use zts_airdrop.Sender.Posts.{
  Carried, carried, paying, taking, payments, IsQuiet, wrapping-IsQuiet, frontier-IsQuiet,
  frontier_momentum-IsQuiet, required_pow-IsQuiet,
}
use zts_airdrop.World.{Host, World}
use zts_airdrop.Zenon.{Zenon}

module _ (Z : Zenon) (H : Host Z) where
  -- what handing in a block that moves `x` did: its block was posted or nothing was, it was posted if
  -- a hash was returned, and the file is as it was
  pub record IsSent (x : Carried Z) (w : World Z H) (r : Result Z.Hash × World Z H) : Type 0 where
    pub file_kept : r.1.file ≡ w.file
    pub at_most_one :
        (payments Z r.1.posted ≡ payments Z w.posted)
        ⊎ (payments Z r.1.posted ≡ payments Z w.posted ++ (x ∷ []))
    pub one_if_ok :
        (h : Z.Hash) → r.0 ≡ ok h → payments Z r.1.posted ≡ payments Z w.posted ++ (x ∷ [])

  quiet_failure :
      (x : Carried Z) (w v : World Z H) (e : Err) → IsQuiet Z H w v → IsSent x w (err e, v)
  quiet_failure x w v e q = record {
    file_kept = q.same_file;
    at_most_one = inl q.same_posts;
    one_if_ok = λ h e. absurd (ground arith);
  }

  quiet_before :
      (x : Carried Z) (w v : World Z H) (r : Result Z.Hash × World Z H)
      → IsQuiet Z H w v
      → IsSent x v r
      → IsSent x w r
  quiet_before x w v r q y = record {
    file_kept = y.file_kept ∙ q.same_file;
    at_most_one = rw (sym q.same_posts) y.at_most_one;
    one_if_ok = rw (sym q.same_posts) y.one_if_ok;
  }

  quiet_next :
      {A : Type 0} (x : Carried Z) (f : A → M (World Z H) Z.Hash) (w : World Z H)
      (r : Result A × World Z H)
      → IsQuiet Z H w r.1
      → ((a : A) → IsSent x r.1 (f a r.1))
      → IsSent x w (next f r)
  quiet_next x f w (ok a, v) q k = quiet_before x w v (f a v) q (k a)
  quiet_next x f w (err e, v) q k = quiet_failure x w v e q

  carried-with_plasma :
      (req : RequiredPlasma) (block : NewBlock Z)
      → carried Z (with_plasma Z H req block) ≡ carried Z block
  unfolding with_plasma
  carried-with_plasma req block = elim (Bool-cases (req.required_difficulty == 0)) [
    | inl e ↦ rw (e, with_plasma) refl
    | inr e ↦ rw (e, with_plasma) refl
  ]

  published :
      (x : Carried Z) (w : World Z H) (hash : Z.Hash) (r : Result Bytes × World Z H) (f : Err → Err)
      → r.1.file ≡ w.file
      → payments Z r.1.posted ≡ payments Z w.posted ++ (x ∷ [])
      → IsSent x w (next (λ answer v. (ok hash, record v { last_hash = hash })) (wrap_err f r))
  published x w hash (ok b, v) f same posted = record {
    file_kept = same;
    at_most_one = inr posted;
    one_if_ok = λ h e. posted;
  }
  published x w hash (err e, v) f same posted = record {
    file_kept = same;
    at_most_one = inr posted;
    one_if_ok = λ h e. posted;
  }

  publish_posts :
      (block : NewBlock Z) (w : World Z H)
      → payments Z (publish_raw_transaction Z H block w).1.posted
        ≡ payments Z w.posted ++ (carried Z block ∷ [])
  unfolding publish_raw_transaction call_ignoring post
  publish_posts block w = refl

  publish_file :
      (block : NewBlock Z) (w : World Z H) → (publish_raw_transaction Z H block w).1.file ≡ w.file
  unfolding publish_raw_transaction call_ignoring post
  publish_file block w = refl

  quiet_after :
      {A B : Type 0} (x : Carried Z) (g : A → B) (f : B → M (World Z H) Z.Hash) (w : World Z H)
      (r : Result A × World Z H)
      → IsQuiet Z H w r.1
      → ((a : A) → IsSent x r.1 (f (g a) r.1))
      → IsSent x w (next f (next (λ a v. (ok (g a), v)) r))
  quiet_after x g f w (ok a, v) q k = quiet_before x w v (f (g a) v) q (k a)
  quiet_after x g f w (err e, v) q k = quiet_failure x w v e q

  submit-IsSent :
      (s : Sender Z H) (publishing : Err → Err) (block : NewBlock Z) (w : World Z H)
      → IsSent (carried Z block) w (submit Z H s publishing block w)
  unfolding submit pay_plasma seal
  submit-IsSent s publishing block w =
      let asking = required_pow Z H block.address block.to_address block.block_type in
      let asked = wrapping (wrapf "required plasma: %w" []) asking w in
      quiet_after (carried Z block) (λ req. with_plasma Z H req block) _ w asked
        (wrapping-IsQuiet Z H (wrapf "required plasma: %w" []) asking w
          (required_pow-IsQuiet Z H block.address block.to_address block.block_type w))
        (λ req.
          let sealed = seal Z H s (with_plasma Z H req block) in
          published (carried Z block) asked.1 sealed.hash
            (publish_raw_transaction Z H sealed asked.1) publishing (publish_file sealed asked.1)
            (publish_posts sealed asked.1
              ∙ ap (λ a. payments Z asked.1.posted ++ (a ∷ [])) (carried-with_plasma req block)))

  -- behind the frontier and the momentum
  drafted-IsSent :
      (s : Sender Z H) (publishing : Err → Err) (x : Carried Z)
      (block : Frontier Z H → Momentum Z → NewBlock Z) (w : World Z H)
      → ((f : Frontier Z H) (m : Momentum Z) → carried Z (block f m) ≡ x)
      → IsSent x w (
          (frontier Z H s >>= λ f.
          (wrapping (wrapf "frontier momentum: %w" []) (frontier_momentum Z H) >>= λ m.
          submit Z H s publishing (block f m)))
            w)
  drafted-IsSent s publishing x block w addressed =
      let at_frontier = frontier Z H s w in
      let asked =
        wrapping (wrapf "frontier momentum: %w" []) (frontier_momentum Z H) at_frontier.1 in
      quiet_next x _ w at_frontier (frontier-IsQuiet Z H s w) (λ f.
        quiet_next x _ at_frontier.1 asked
          (wrapping-IsQuiet Z H (wrapf "frontier momentum: %w" []) (frontier_momentum Z H)
            at_frontier.1 (frontier_momentum-IsQuiet Z H at_frontier.1))
          (λ m. rw (sym (addressed f m)) (submit-IsSent s publishing (block f m) asked.1)))

  -- A Send posts one block, which pays the amount of the token to its recipient, or posts none
  -- and returns an error; it posts no other block, whatever the node answers, and leaves the
  -- journal's file alone.
  pub send-IsSent :
      (s : Sender Z H) (to : Z.Address) (amount : Option ℤ) (zts : Z.Zts) (w : World Z H)
      → IsSent (paying Z (amount_or_zero Z H amount) zts to) w (send Z H s to amount zts w)
  unfolding send draft
  send-IsSent s to amount zts w = drafted-IsSent s (wrapf "publish: %w" []) _ _ w (λ f m. refl)

  -- a receive posts the receive of its block at most
  pub receive-IsSent :
      (s : Sender Z H) (from : Z.Hash) (w : World Z H)
      → IsSent (taking Z from) w (receive Z H s from w)
  unfolding receive draft
  receive-IsSent s from w = drafted-IsSent s (wrapf "publish receive: %w" []) _ _ w (λ f m. refl)
