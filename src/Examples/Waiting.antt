-- ===== src/Examples/Waiting.antt =====
-- A node that never reports the last block, asked by a clock that advances.
use zts_airdrop.Base.{◌+◌, ◌≢◌, refl, false, true, [], ◌∷◌, none, diverges, err, arith}
use zts_airdrop.Examples.Machine.{machine}
use zts_airdrop.Examples.Paying.{small, one_hash, payer, fresh}
use zts_airdrop.Sender.{Sender, frontier}
use zts_airdrop.Sender.Receiving.{receive_all, IsCollected, receive_all-IsCollected}
use zts_airdrop.Sender.Waiting.{IsTicking, frontier_ends}
use zts_airdrop.World.{reply, Host, World}

abbrev slow : Host small
slow = record (machine small one_hash) {
  exchange = λ r n. (reply 200 (0 ∷ []), n + 1);
  now = λ n. (n, n);
  wait = λ d n. (false, n + d);
}

slow-IsTicking : IsTicking small slow (λ n. n)
slow-IsTicking = record {
  reads = λ n. refl;
  reading_keeps = λ n. omega arith;
  exchange_keeps = λ r n. omega arith;
  wait_moves = λ d n e. omega arith;
}

abbrev waiter : Sender small slow
waiter = record { key = 1; addr = false; chain = 1; frontier_wait = 90000 }

abbrev published : World small slow
published = record { net = 7; id = 0; posted = []; last_hash = true; file = none }

frontier_ends_example : (frontier small slow waiter published).0 ≢ err diverges
frontier_ends_example =
    frontier_ends small slow (λ n. n) slow-IsTicking waiter published (omega arith)

receive_all-IsCollected_example :
    IsCollected small
      (machine small one_hash)
      payer
      fresh
      0
      (receive_all small (machine small one_hash) 3 payer fresh)
receive_all-IsCollected_example =
    receive_all-IsCollected small (machine small one_hash) 3 payer fresh
