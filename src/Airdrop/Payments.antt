-- ===== src/Airdrop/Payments.antt =====
-- A run posts payments to unpaid recipients only, in their order, and the journal holds what it
-- counts as sent.
use zts_airdrop.Airdrop.{
  Desk, Settings, Report, empty_report, Progress, on_failure, rest_between, on_success, pay, visit,
  run_loop, run, skip_one, pay_one, journal_error,
}
use zts_airdrop.Airdrop.Trace.{
  unpaid, Watch, IsTraced, idle, uncounted, settled, joined, from_before, nothing_done, widened,
  unpaid_one, unpaid-cons,
}
use zts_airdrop.Base.{
  ℕ, ◌+◌, ◌≡◌, refl, ap, ◌∙◌, ◌⊎◌, inl, inr, true, false, List, [], ◌∷◌, ◌++◌, none, some, Bytes,
  Err, canceled, ok, err, arith, length, Option-cases, Bool-cases, Result-cases,
}
use zts_airdrop.Journal.{PaidMap, find}
use zts_airdrop.Zenon.{Zenon}

module _ (Z : Zenon) {S : Type 0} (D : Desk Z S) (W : Watch Z D) (cfg : Settings Z)
    (journalled : cfg.has_journal ≡ true) where
  on_failure-sent :
      (addr : Z.Address) (e : Err) (p : Progress Z)
      → (on_failure Z cfg addr e p).report.sent ≡ p.report.sent
  unfolding on_failure
  on_failure-sent addr e p = ground arith

  -- the pause is the only thing that happens between two sends
  rest_between_state :
      (remaining : ℕ) (p : Progress Z) (s : S)
      → let (p', s') = rest_between Z D cfg remaining p s in
        (p'.report ≡ p.report) × ((s' ≡ (D.pause s).1) ⊎ (s' ≡ s))
  unfolding rest_between
  rest_between_state remaining p s = ground arith

  -- the progress behind a payment that is recorded
  abbrev paid_progress : Progress Z → Progress Z
  paid_progress p = record { report = pay_one Z cfg.amount p.report; consecutive = 0; halt = none }

  module _ (n remaining : ℕ) (addr : Z.Address) (p : Progress Z) (s : S) where
    on_success_written :
        (hash : Z.Hash)
        → (D.record_payment n addr hash s).0 ≡ ok tt
        → on_success Z D cfg n remaining addr hash p s
          ≡ rest_between Z D cfg remaining (paid_progress p) (D.record_payment n addr hash s).1
    unfolding on_success
    on_success_written hash e = rw (journalled, on_success) (rw e)

    on_success_lost :
        (hash : Z.Hash) {x : Err}
        → (D.record_payment n addr hash s).0 ≡ err x
        → on_success Z D cfg n remaining addr hash p s ≡ (
          record p { consecutive = 0; halt = some (journal_error Z addr hash x) },
          (D.record_payment n addr hash s).1,
        )
    unfolding on_success
    on_success_lost hash e = rw (journalled, on_success) (rw e)

    pay_sent :
        (hash : Z.Hash)
        → (D.send addr s).0 ≡ ok hash
        → pay Z D cfg n remaining addr p s
          ≡ on_success Z D cfg n remaining addr hash p (D.send addr s).1
    unfolding pay
    pay_sent hash e = rw (e, pay)

    pay_failed :
        {x : Err}
        → (D.send addr s).0 ≡ err x
        → pay Z D cfg n remaining addr p s ≡ (on_failure Z cfg addr x p, (D.send addr s).1)
    unfolding pay
    pay_failed e = rw (e, pay)

  -- what a stretch from `p` and `s` to its result did
  abbrev Traces : List Z.Address → Progress Z → S → Progress Z × S → Type 0
  Traces candidates p s q = IsTraced Z D W candidates p q.0 s q.1

  -- a pause posts nothing and leaves the journal alone
  paused :
      (s : S) {s' : S}
      → (s' ≡ (D.pause s).1) ⊎ (s' ≡ s)
      → (W.posts s' ≡ W.posts s) × ((l : List (Z.Address × Z.Hash)) → W.Holds s l → W.Holds s' l)
  paused s (inl e) = rw e (W.pause-posts s, W.pause-Holds s)
  paused s (inr e) = rw e (refl, λ l h. h)

  module _ (n remaining : ℕ) (addr : Z.Address) (p : Progress Z) (s : S) where
    recorded_traced :
        (hash : Z.Hash)
        → (D.send addr s).0 ≡ ok hash
        → (D.record_payment n addr hash (D.send addr s).1).0 ≡ ok tt
        → Traces (addr ∷ []) p s (
            rest_between Z D cfg remaining
              (paid_progress p)
              (D.record_payment n addr hash (D.send addr s).1).1)
    recorded_traced hash sent written =
        let t = (D.send addr s).1 in
        let u = (D.record_payment n addr hash t).1 in
        let (same_report, state) = rest_between_state remaining (paid_progress p) u in
        let posted : W.posts u ≡ W.posts s ++ (W.item addr ∷ []) =
          W.record-posts n addr hash t ∙ W.send_ok-posts addr hash s sent in
        let keeps = λ (l : List (Z.Address × Z.Hash)) (h : W.Holds s l).
          W.record-Holds n addr hash t l written (W.send-Holds addr s l h) in
        let (same_posts, still_held) = paused u state in
        settled Z D W addr hash (same_posts ∙ posted) (ap (λ (r : Report Z). r.sent) same_report)
          (λ l h. still_held (l ++ ((addr, hash) ∷ [])) (keeps l h))

    sent_traced :
        (hash : Z.Hash)
        → (D.send addr s).0 ≡ ok hash
        → Traces (addr ∷ []) p s (on_success Z D cfg n remaining addr hash p (D.send addr s).1)
    sent_traced hash sent = elim (Result-cases (D.record_payment n addr hash (D.send addr s).1).0) [
      | inl (u, written) ↦
          rw (on_success_written n remaining addr p (D.send addr s).1 hash written)
            (recorded_traced hash sent written)
      | inr (x, lost) ↦ rw (on_success_lost n remaining addr p (D.send addr s).1 hash lost) (
          uncounted Z D W addr
            (W.record-posts n addr hash (D.send addr s).1 ∙ W.send_ok-posts addr hash s sent) refl
            (inl (addr, hash, x, refl)))
    ]

    pay_traced : Traces (addr ∷ []) p s (pay Z D cfg n remaining addr p s)
    pay_traced = elim (Result-cases (D.send addr s).0) [
      | inl (hash, sent) ↦ rw (pay_sent n remaining addr p s hash sent) (sent_traced hash sent)
      | inr (x, failed) ↦ rw (pay_failed n remaining addr p s failed) (elim (W.send-posts addr s) [
        | inl nothing ↦
            idle Z D W (addr ∷ []) nothing (on_failure-sent addr x p) (W.send-Holds addr s)
        | inr posted ↦
            uncounted Z D W addr posted (on_failure-sent addr x p) (inr (W.send-Holds addr s))
      ])
    ]

  module _ (n remaining : ℕ) (addr : Z.Address) (p : Progress Z) (s : S) where
    visit_ended :
        (paid : PaidMap Z)
        → (D.is_done s).0 ≡ true
        → visit Z D cfg paid n remaining addr p s
          ≡ (record p { halt = some canceled }, (D.is_done s).1)
    unfolding visit
    visit_ended paid e = rw (e, visit)

    visit_skipped :
        (paid : PaidMap Z) {hash : Bytes}
        → (D.is_done s).0 ≡ false
        → find Z addr paid ≡ some hash
        → visit Z D cfg paid n remaining addr p s
          ≡ (record p { report = skip_one Z p.report }, (D.is_done s).1)
    unfolding visit
    visit_skipped paid e f = rw (e, visit) (rw f)

    visit_unpaid :
        (paid : PaidMap Z)
        → (D.is_done s).0 ≡ false
        → find Z addr paid ≡ none
        → visit Z D cfg paid n remaining addr p s ≡ pay Z D cfg n remaining addr p (D.is_done s).1
    unfolding visit
    visit_unpaid paid e f = rw (e, visit) (rw f)

    -- asking whether the context ended changes nothing that is watched
    idle_check :
        (candidates : List Z.Address) (q : Progress Z)
        → q.report.sent ≡ p.report.sent
        → IsTraced Z D W candidates p q s (D.is_done s).1
    idle_check candidates q same =
        idle Z D W candidates (W.is_done-posts s) same (W.is_done-Holds s)

    visit_traced :
        (paid : PaidMap Z)
        → Traces (unpaid Z paid (addr ∷ [])) p s (visit Z D cfg paid n remaining addr p s)
    visit_traced paid = elim (Bool-cases (D.is_done s).0) [
      | inl e ↦ rw (visit_ended paid e) (idle_check _ (record p { halt = some canceled }) refl)
      | inr e ↦ elim (Option-cases (find Z addr paid)) [
        | inl f ↦
            rw (visit_unpaid paid e f, unpaid_one Z paid addr f)
              (from_before Z D W (addr ∷ []) (W.is_done-posts s) (W.is_done-Holds s)
                (pay_traced n remaining addr p (D.is_done s).1))
        | inr (hash, f) ↦
            rw (visit_skipped paid e f)
              (idle_check _ (record p { report = skip_one Z p.report }) refl)
      ]
    ]

  module _ (paid : PaidMap Z) (n : ℕ) (addr : Z.Address) (rest : List Z.Address) (p : Progress Z)
      (s : S) where
    run_loop_goes :
        (visit Z D cfg paid n (length rest) addr p s).0.halt ≡ none
        → run_loop Z D cfg paid n (addr ∷ rest) p s ≡ (
            let (q, t) = visit Z D cfg paid n (length rest) addr p s in
            run_loop Z D cfg paid (n + 1) rest q t)
    unfolding run_loop
    run_loop_goes e = rw (e, run_loop)

    run_loop_stops :
        {x : Err}
        → (visit Z D cfg paid n (length rest) addr p s).0.halt ≡ some x
        → run_loop Z D cfg paid n (addr ∷ rest) p s ≡ visit Z D cfg paid n (length rest) addr p s
    unfolding run_loop
    run_loop_stops e = ground arith

  run_loop_traced :
      (paid : PaidMap Z) (n : ℕ) (recipients : List Z.Address) (p : Progress Z) (s : S)
      → Traces (unpaid Z paid recipients) p s (run_loop Z D cfg paid n recipients p s)
  run_loop_traced paid n [] p s = unfold run_loop unpaid in nothing_done Z D W p s
  run_loop_traced paid n (addr ∷ rest) p s =
      let first = visit_traced n (length rest) addr p s paid in
      let q = (visit Z D cfg paid n (length rest) addr p s).0 in
      let t = (visit Z D cfg paid n (length rest) addr p s).1 in
      rw (unpaid-cons Z paid addr rest) (elim (Option-cases q.halt) [
        | inl going ↦ rw (run_loop_goes paid n addr rest p s going) (
            joined Z D W (unpaid Z paid (addr ∷ [])) (unpaid Z paid rest) going first
              (run_loop_traced paid (n + 1) rest q t))
        | inr (e, stopped) ↦
            rw (run_loop_stops paid n addr rest p s stopped)
              (widened Z D W (unpaid Z paid (addr ∷ [])) (unpaid Z paid rest) first)
      ])

  -- A run under a journal, whatever fails and wherever it stops, posts one payment for each of
  -- some of the recipients that the paid map does not name, in their order, and no other; it
  -- counts as sent exactly the payments it recorded, which are among those posted; and the
  -- journal holds exactly these behind what it held before, unless the run ended on a failed
  -- journal write. What a send and a journal write do to the posts and to the journal is the
  -- hypothesis Watch.
  pub run_traced :
      (recipients : List Z.Address) (paid : PaidMap Z) (s : S)
      → let start : Progress Z = record { report = empty_report Z; consecutive = 0; halt = none } in
        Traces (unpaid Z paid recipients) start s (run Z D cfg recipients paid s)
  unfolding run
  run_traced recipients paid s = run_loop_traced paid 1 recipients _ s
