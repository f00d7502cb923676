-- ===== src/Sender/Waiting.antt =====
-- The wait for the node's frontier ends.
use zts_airdrop.Base.{
  err_injective, ℕ, zero, suc, ◌+◌, ◌*◌, ◌≤◌, ◌<◌, ◌≡◌, ap, ◌∙◌, ◌≢◌, [], ◌∷◌, inl, inr, false,
  Option, diverges, wrapf, Result, ok, err, arith, Bool-cases, Option-cases, ltb, ltb_false→le,
}
use zts_airdrop.Effect.{next_cases, wrapping, wrap_err}
use zts_airdrop.Ledger.{AccountBlock}
use zts_airdrop.Rpc.{frontier_account_block, post, unmarshal_big_int}
use zts_airdrop.Sender.{Sender, Frontier, accept_frontier, hold, frontier_loop, frontier}
use zts_airdrop.Sender.Posts.{call_world, wrap_world}
use zts_airdrop.World.{Request, text, Host, World}
use zts_airdrop.Zenon.{Zenon}

module _ (Z : Zenon) (H : Host Z) where
  -- A clock that never goes back and that a finished pause moves on by at least its length.
  pub record IsTicking (clock : H.Net → ℕ) : Type 0 where
    pub reads : (n : H.Net) → (H.now n).0 ≡ clock n
    pub reading_keeps : (n : H.Net) → clock n ≤ clock (H.now n).1
    pub exchange_keeps : (r : Request Z) (n : H.Net) → clock n ≤ clock (H.exchange r n).1
    pub wait_moves :
        (d : ℕ) (n : H.Net) → (H.wait d n).0 ≡ false → clock n + d ≤ clock (H.wait d n).1

  module _ (clock : H.Net → ℕ) (ticking : IsTicking clock) (s : Sender Z H) where
    asking_keeps : (w : World Z H) → clock w.net ≤ clock (frontier_account_block Z H s.addr w).1.net
    unfolding frontier_account_block post
    asking_keeps w =
        rw
          (call_world Z H "ledger.getFrontierAccountBlock" (text (Z.address_string s.addr) ∷ [])
            (H.decode_block unmarshal_big_int) w)
          (ticking.exchange_keeps _ w.net)

    -- a hold that lets the loop go on was begun by the deadline, and took half a second
    hold_moves :
        (deadline : ℕ) (w : World Z H)
        → (hold Z H s deadline w).0 ≡ ok tt
        → (clock w.net ≤ deadline) × (clock w.net + 500 ≤ clock (hold Z H s deadline w).1.net)
    unfolding hold
    hold_moves deadline w e = elim (Bool-cases (ltb deadline (H.now w.net).0)) [
      | inl late ↦ absurd (ground arith)
      | inr early ↦ elim (Bool-cases (H.wait 500 (H.now w.net).1).0) [
        | inl ended ↦ absurd (ground arith)
        | inr waited ↦
            rw (early, waited, hold)
              (let read = ticking.reads w.net in
                let kept = ticking.reading_keeps w.net in
                let moved = ticking.wait_moves 500 (H.now w.net).1 waited in
                let before = ltb_false→le deadline (H.now w.net).0 early in
                (omega arith, omega arith))
      ]
    ]

    hold_ends : (deadline : ℕ) (w : World Z H) → (hold Z H s deadline w).0 ≢ err diverges
    unfolding hold
    hold_ends deadline w = ground arith

    wrap_ends :
        {A : Type 0} (r : Result A × World Z H)
        → (wrap_err (wrapf "frontier account block: %w" []) r).0 ≢ err diverges
    wrap_ends (ok a, w) e = absurd (ground arith)
    wrap_ends (err x, w) e = absurd (ground arith)

    abbrev asking : World Z H → Result (Option (AccountBlock Z)) × World Z H
    asking = wrapping (wrapf "frontier account block: %w" []) (frontier_account_block Z H s.addr)

    asked_keeps : (w : World Z H) → clock w.net ≤ clock (asking w).1.net
    asked_keeps w =
        rw
          (wrap_world Z H (wrapf "frontier account block: %w" [])
            (frontier_account_block Z H s.addr w))
          (asking_keeps w)

    -- a round ends if the rounds behind it do
    round_ends :
        (fuel deadline : ℕ) (w : World Z H)
        → ((hold Z H s deadline (asking w).1).0 ≡ ok tt
            → (frontier_loop Z H fuel s deadline (hold Z H s deadline (asking w).1).1).0
              ≢ err diverges)
        → (frontier_loop Z H (suc fuel) s deadline w).0 ≢ err diverges
    unfolding frontier_loop
    round_ends fuel deadline w rest =
        next_cases (λ (q : Result (Frontier Z H) × World Z H). q.0 ≢ err diverges) _ (asking w)
          (λ e failed same.
            wrap_ends (frontier_account_block Z H s.addr w) (failed ∙ ap err (err_injective same)))
          (λ found got. elim (Option-cases (accept_frontier Z H (asking w).1.last_hash found)) [
            | inr (f, accepted) ↦ rw accepted (λ e. absurd (ground arith))
            | inl none_yet ↦ rw none_yet (
                next_cases (λ (q : Result (Frontier Z H) × World Z H). q.0 ≢ err diverges)
                  (λ _. frontier_loop Z H fuel s deadline) (hold Z H s deadline (asking w).1)
                  (λ e failed same.
                    hold_ends deadline (asking w).1 (failed ∙ ap err (err_injective same)))
                  (λ _ held. rest held))
          ])

    -- the rounds left reach past the deadline
    frontier_loop_ends :
        (fuel deadline : ℕ) (w : World Z H)
        → deadline < clock w.net + 500 * fuel
        → (frontier_loop Z H (suc fuel) s deadline w).0 ≢ err diverges
    frontier_loop_ends zero deadline w enough = round_ends zero deadline w (λ held.
        let kept = asked_keeps w in
        let moved = hold_moves deadline (asking w).1 held in absurd (omega (arith, moved.0)))
    frontier_loop_ends (suc fuel) deadline w enough = round_ends (suc fuel) deadline w (λ held.
        let kept = asked_keeps w in
        let moved = hold_moves deadline (asking w).1 held in
        frontier_loop_ends fuel deadline (hold Z H s deadline (asking w).1).1
          (omega (arith, moved.1)))

    -- Under a clock that never goes back and that a finished pause moves on by its length, the
    -- search for the frontier of a sender that waits 90 seconds at most ends, with a frontier
    -- or with an error of the code, within the rounds of the model, whatever the node answers.
    pub frontier_ends :
        (w : World Z H) → s.frontier_wait ≤ 90000 → (frontier Z H s w).0 ≢ err diverges
    unfolding frontier
    frontier_ends w short =
        let read = ticking.reads w.net in
        let kept = ticking.reading_keeps w.net in
        frontier_loop_ends 181 ((H.now w.net).0 + s.frontier_wait)
          (record w { net = (H.now w.net).1 }) (omega arith)
