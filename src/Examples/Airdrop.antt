-- ===== src/Examples/Airdrop.antt =====
-- A run over three recipients, of whom one is paid already.
use zts_airdrop.Airdrop.{Desk, Settings, Progress, run}
use zts_airdrop.Airdrop.Counts.{IsBalanced, handled, run_counts}
use zts_airdrop.Airdrop.Payments.{run_traced}
use zts_airdrop.Airdrop.Trace.{Watch, IsTraced, unpaid}
use zts_airdrop.Base.{
  ℕ, ◌≡◌, refl, ap, true, false, List, [], ◌∷◌, ◌++◌, none, pos, codes, ok, err, errorf, Result,
  ◌==◌, if◌then◌else◌, ◌+◌, ◌≤◌, ◌∙◌, ◌⊎◌, arith,
}
use zts_airdrop.Examples.Chain.{chain}
use zts_airdrop.Journal.{PaidMap}

-- the posts, and the journal's payments
abbrev pub State : Type 0
State = List ℕ × List (ℕ × ℕ)

-- a send to the address 13 fails; each hash is 100 more than its address
abbrev pub try_send : ℕ → State → Result ℕ × State
try_send a (posts, held) =
    if a == 13
    then (err (errorf "refused" []), (posts, held))
    else (ok (a + 100), (posts ++ (a ∷ []), held))

abbrev pub desk : Desk chain State
desk = record {
  is_done = λ s. (false, s);
  send = try_send;
  record_payment = λ n a h s. (ok tt, (s.0, s.1 ++ ((a, h) ∷ [])));
  pause = λ s. (false, s);
}

abbrev pub settings : Settings chain
settings = record { amount = pos 5; has_journal = true; delay = 0; stop_after_errors = 3 }

abbrev pub paid_before : PaidMap chain
paid_before = (12, codes "112") ∷ []

pub send_posts :
    (a : ℕ) (s : State) → ((try_send a s).1.0 ≡ s.0) ⊎ ((try_send a s).1.0 ≡ s.0 ++ (a ∷ []))
send_posts a s = ground arith

pub send_ok_posts :
    (a h : ℕ) (s : State) → (try_send a s).0 ≡ ok h → (try_send a s).1.0 ≡ s.0 ++ (a ∷ [])
send_ok_posts a h s e = ground arith

pub send_keeps : (a : ℕ) (s : State) → (try_send a s).1.1 ≡ s.1
send_keeps a s = ground arith

abbrev pub watch : Watch chain desk
watch = record {
  Item = ℕ;
  item = λ a. a;
  posts = λ s. s.0;
  Holds = λ s l. s.1 ≡ l;
  is_done-posts = λ s. refl;
  pause-posts = λ s. refl;
  record-posts = λ n a h s. refl;
  send-posts = send_posts;
  send_ok-posts = send_ok_posts;
  is_done-Holds = λ s l e. e;
  pause-Holds = λ s l e. e;
  send-Holds = λ a s l e. send_keeps a s ∙ e;
  record-Holds = λ n a h s l _ e. ap (λ k. k ++ ((a, h) ∷ [])) e;
}

run_counts_example :
    let q = (run chain desk settings (11 ∷ 12 ∷ 13 ∷ []) paid_before ([], [])).0 in
    IsBalanced chain settings q.report
    × (handled chain settings q.report ≤ 3)
    × (q.halt ≡ none → handled chain settings q.report ≡ 3)
run_counts_example = run_counts chain settings desk (11 ∷ 12 ∷ 13 ∷ []) paid_before ([], [])

run_traced_example :
    let start : Progress chain = record {
      report = record { sent = 0; skipped = 0; failed = 0; total = pos 0; errors = [] };
      consecutive = 0;
      halt = none;
    } in
    let q = run chain desk settings (11 ∷ 12 ∷ 13 ∷ []) paid_before ([], []) in
    IsTraced chain desk watch (unpaid chain paid_before (11 ∷ 12 ∷ 13 ∷ [])) start q.0 ([], []) q.1
run_traced_example =
    run_traced chain desk watch settings refl (11 ∷ 12 ∷ 13 ∷ []) paid_before ([], [])
