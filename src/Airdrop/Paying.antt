-- ===== src/Airdrop/Paying.antt =====
-- The loop over the real sender and the real journal.
use mathlib.Core.List.{Sublistᴰ}
use zts_airdrop.Airdrop.{Desk, Settings, Progress, run}
use zts_airdrop.Airdrop.Payments.{run_traced}
use zts_airdrop.Airdrop.Resume.{assign_all}
use zts_airdrop.Airdrop.Trace.{unpaid, Watch, IsJournalFailure}
use zts_airdrop.Base.{
  ℕ, ◌<◌, ◌≡◌, refl, ap, ◌⊎◌, inl, inr, true, List, [], ◌∷◌, ◌++◌, map, some, Bytes, arith, length,
  Option-cases,
}
use zts_airdrop.Journal.{PaidMap, assign, max_line, record_payment, append_line}
use zts_airdrop.Journal.ReadBack.{IsJson}
use zts_airdrop.Journal.Recorded.{IsReadAs, payment_line, record_payment-reads}
use zts_airdrop.Sender.{Sender, send}
use zts_airdrop.Sender.Posts.{Carried, paying, payments}
use zts_airdrop.Sender.Sent.{send-IsSent}
use zts_airdrop.World.{Host, World}
use zts_airdrop.Zenon.{Zenon, IsLawful}

module _ (Z : Zenon) (H : Host Z) (run_name : Bytes) (cfg : Settings Z) (zts : Z.Zts)
    (s : Sender Z H) where
  -- the operations that `Run` calls, over the world
  abbrev pub world_desk : Desk Z (World Z H)
  world_desk = record {
    is_done = λ w. let (ended, net) = H.is_done w.net in (ended, record w { net = net });
    send = λ a w. send Z H s a (some cfg.amount) zts w;
    record_payment = λ n a h w. record_payment Z H run_name n a cfg.amount zts h w;
    pause = λ w. let (ended, net) = H.wait cfg.delay w.net in (ended, record w { net = net });
  }

  pub assign_all-append :
      (l : List (Z.Address × Z.Hash)) (a : Z.Address) (h : Z.Hash) (m : PaidMap Z)
      → assign_all Z (l ++ ((a, h) ∷ [])) m ≡ assign Z a (Z.hash_string h) (assign_all Z l m)
  unfolding assign_all
  assign_all-append [] a h m = refl
  assign_all-append ((b, g) ∷ l) a h m = assign_all-append l a h (assign Z b (Z.hash_string g) m)

  append_line_posts : (line : Bytes) (w : World Z H) → (append_line Z H line w).1.posted ≡ w.posted
  unfolding append_line
  append_line_posts line w = elim (Option-cases (H.write line w.net).0.1) [
    | inl n ↦ rw (n, append_line) refl
    | inr (x, f) ↦ rw (f, append_line) refl
  ]

  pub record_payment_posts :
      (n : ℕ) (a : Z.Address) (h : Z.Hash) (w : World Z H)
      → (record_payment Z H run_name n a cfg.amount zts h w).1.posted ≡ w.posted
  unfolding record_payment
  record_payment_posts n a h w = append_line_posts _ (record w { net = (H.now w.net).1 })

  module _ (lawful : IsLawful Z) (json : IsJson Z H) (path : Bytes)
      (short : (n : ℕ) (a : Z.Address) (h : Z.Hash) (w : World Z H)
        → length (payment_line Z H path run_name n a cfg.amount zts h w) < max_line)
      (paid : PaidMap Z) where
    abbrev world_watch : Watch Z world_desk
    world_watch = record {
      Item = Carried Z;
      item = paying Z cfg.amount zts;
      posts = λ w. payments Z w.posted;
      Holds = λ w l. IsReadAs Z H path run_name w.file (assign_all Z l paid);
      is_done-posts = λ w. refl;
      pause-posts = λ w. refl;
      record-posts = λ n a h w. ap (payments Z) (record_payment_posts n a h w);
      send-posts = λ a w. (send-IsSent Z H s a (some cfg.amount) zts w).at_most_one;
      send_ok-posts = λ a h w e. (send-IsSent Z H s a (some cfg.amount) zts w).one_if_ok h e;
      is_done-Holds = λ w l h. h;
      pause-Holds = λ w l h. h;
      send-Holds = λ a w l h. rw (send-IsSent Z H s a (some cfg.amount) zts w).file_kept h;
      record-Holds = λ n a h w l e r. rw (assign_all-append l a h paid) (
          record_payment-reads Z H path run_name lawful json n a cfg.amount zts h w
            (assign_all Z l paid) r (short n a h w) e);
    }

    -- what a run did to the world
    pub record IsPaid (recipients : List Z.Address) (w : World Z H) (q : Progress Z × World Z H)
        : Type 0 where
      pub tried : List Z.Address
      pub recorded : List (Z.Address × Z.Hash)
      pub in_order : Sublistᴰ tried (unpaid Z paid recipients)
      pub recorded_tried : Sublistᴰ (map (λ (x : Z.Address × Z.Hash). x.0) recorded) tried
      pub posted :
          payments Z q.1.posted ≡ payments Z w.posted ++ map (paying Z cfg.amount zts) tried
      pub counted : q.0.report.sent ≡ length recorded
      pub read_back :
          IsJournalFailure Z world_desk world_watch q.0
          ⊎ IsReadAs Z H path run_name q.1.file (assign_all Z recorded paid)

    -- A run over the client, the sender and the journal, whatever fails and wherever it stops,
    -- posts one payment of the run's amount and token for each of some of the recipients that
    -- its paid map does not name, in their order, and no other block; it counts as sent
    -- exactly the payments that it recorded, which are among those; and afterwards Paid reads
    -- the map with the recorded payments added, unless the run ended on a failed journal
    -- write. It assumes a journal, whose file exists, ends in a whole line and is read by Paid
    -- as that map before, the documented behaviour of JSON and of address texts, and that the
    -- lines are shorter than the scanner's buffer.
    pub run-IsPaid :
        cfg.has_journal ≡ true
        → (recipients : List Z.Address) (w : World Z H) → IsReadAs Z H path run_name w.file paid
        → IsPaid recipients w (run Z world_desk cfg recipients paid w)
    unfolding assign_all
    run-IsPaid journalled recipients w h =
        let trace = run_traced Z world_desk world_watch cfg journalled recipients paid w in
        record {
          tried = trace.tried;
          recorded = trace.recorded;
          in_order = trace.in_order;
          recorded_tried = trace.recorded_tried;
          posted = trace.posted;
          counted = omega (arith, trace.counted);
          read_back = elim trace.held [ inl f ↦ inl f | inr keeps ↦ inr (keeps [] h) ];
        }
