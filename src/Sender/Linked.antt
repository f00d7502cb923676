-- ===== src/Sender/Linked.antt =====
-- The block that a sender builds follows the block that it published last.
use zts_airdrop.Base.{
  ok_injective, ℕ, zero, suc, ◌+◌, ◌≡◌, refl, ap, ◌∙◌, inl, inr, true, false, Option, none, some,
  ok, err, wrapf, [], Result, arith, ite, Bool-cases, Option-cases,
}
use zts_airdrop.Effect.{M, next, wrapping}
use zts_airdrop.Ledger.{AccountBlock}
use zts_airdrop.Rpc.{frontier_account_block}
use zts_airdrop.Sender.{Sender, Frontier, accept_frontier, hold, frontier_loop, frontier, rounds}
use zts_airdrop.Sender.Posts.{wrapping-IsQuiet, frontier_account_block-IsQuiet, hold-IsQuiet}
use zts_airdrop.World.{Host, World}
use zts_airdrop.Zenon.{Zenon, same_hash}

module _ (Z : Zenon) (H : Host Z) where
  same_hash_sound : (a b : Z.Hash) → same_hash Z a b ≡ true → a ≡ b
  same_hash_sound a b = decided (Z.hash_discrete a b)
    where
      decided : (d : Dec (a ≡ b)) → ite d true false ≡ true → a ≡ b
      decided (yes e) h = e
      decided (no n) h = absurd (ground arith)

  still_set :
      {a b : Z.Hash} → a ≡ b → same_hash Z b Z.zero_hash ≡ false → same_hash Z a Z.zero_hash ≡ false
  still_set e h = ap (λ x. same_hash Z x Z.zero_hash) e ∙ h

  next_inverse :
      {A B : Type 0} (f : A → M (World Z H) B) (r : Result A × World Z H) {b : B}
      → (next f r).0 ≡ ok b
      → (a : A) × (r.0 ≡ ok a) × ((f a r.1).0 ≡ ok b)
  next_inverse f (ok a, v) e = (a, refl, e)
  next_inverse f (err x, v) e = absurd (ground arith)

  accept_frontier_sound :
      (last : Z.Hash) (found : Option (AccountBlock Z)) {f : Frontier Z H}
      → same_hash Z last Z.zero_hash ≡ false
      → accept_frontier Z H last found ≡ some f
      → f.previous ≡ last
  unfolding accept_frontier
  accept_frontier_sound last none h e = absurd (ground arith)
  accept_frontier_sound last (some b) {f} h e = elim (Bool-cases (same_hash Z b.hash last)) [
    | inl same ↦ let x = same_hash_sound b.hash last same in ground arith
    | inr differ ↦ absurd (ground arith)
  ]

  frontier_loop_linked :
      (fuel : ℕ) (s : Sender Z H) (deadline : ℕ) (w : World Z H) {f : Frontier Z H}
      → same_hash Z w.last_hash Z.zero_hash ≡ false
      → (frontier_loop Z H fuel s deadline w).0 ≡ ok f
      → f.previous ≡ w.last_hash
  unfolding frontier_loop
  frontier_loop_linked zero s deadline w h e = absurd (ground arith)
  frontier_loop_linked (suc fuel) s deadline w {f} h e =
      let asking = frontier_account_block Z H s.addr in
      let asked = wrapping (wrapf "frontier account block: %w" []) asking w in
      let quiet =
        wrapping-IsQuiet Z H (wrapf "frontier account block: %w" []) asking w
          (frontier_account_block-IsQuiet Z H s.addr w) in
      let (found, _, rest) = next_inverse _ asked e in
      elim (Option-cases (accept_frontier Z H asked.1.last_hash found)) [
        | inr (g, accepted) ↦
            let same : g ≡ f = ok_injective (rw accepted at rest) in
            rw same at
              (accept_frontier_sound asked.1.last_hash found (still_set quiet.same_last h) accepted)
            ∙ quiet.same_last
        | inl none_yet ↦
            let held = hold Z H s deadline asked.1 in
            let (_, _, later) = next_inverse _ held (rw none_yet at rest) in
            let waited = hold-IsQuiet Z H s deadline asked.1 in
            frontier_loop_linked fuel s deadline held.1
              (still_set (waited.same_last ∙ quiet.same_last) h) later
            ∙ waited.same_last
            ∙ quiet.same_last
      ]

  -- Once a sender has published a block (its last hash is not zero), a frontier that it finds
  -- for the next block has that block as its previous hash, whatever the node answers and
  -- however often it is asked.
  pub frontier_linked :
      (s : Sender Z H) (w : World Z H) {f : Frontier Z H}
      → same_hash Z w.last_hash Z.zero_hash ≡ false
      → (frontier Z H s w).0 ≡ ok f
      → f.previous ≡ w.last_hash
  unfolding frontier
  frontier_linked s w h e =
      let (t, net) = H.now w.net in
      frontier_loop_linked rounds s (t + s.frontier_wait) (record w { net = net }) h e
