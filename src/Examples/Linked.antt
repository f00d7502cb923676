-- ===== src/Examples/Linked.antt =====
-- A sender that published a block before.
use zts_airdrop.Base.{◌≡◌, refl, true, [], some, ok}
use zts_airdrop.Examples.Machine.{machine}
use zts_airdrop.Examples.Paying.{small, same_bool, one_hash, payer}
use zts_airdrop.Rpc.{
  post, read_reply, read_envelope, call, call_ignoring, has_result, frontier_account_block,
}
use zts_airdrop.Sender.{Frontier, accept_frontier, frontier, frontier_loop}
use zts_airdrop.Sender.Linked.{frontier_linked}
use zts_airdrop.Text.{same_text}
use zts_airdrop.World.{World}

abbrev behind_one : World small (machine small one_hash)
behind_one = record { net = 3; id = 9; posted = []; last_hash = true; file = some [] }

at_four :
    (frontier small (machine small one_hash) payer behind_one).0
    ≡ ok (record { height = 4; previous = true })
unfolding frontier frontier_loop accept_frontier frontier_account_block call call_ignoring post
    read_reply read_envelope has_result same_text same_bool
at_four = refl

frontier_linked_example :
    let f : Frontier small (machine small one_hash) = record { height = 4; previous = true } in
    f.previous ≡ behind_one.last_hash
unfolding same_bool
frontier_linked_example =
    frontier_linked small (machine small one_hash) payer behind_one refl at_four
