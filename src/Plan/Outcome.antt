-- ===== src/Plan/Outcome.antt =====
-- What a plan does once it knows the paid map: its outcomes, and its sends.
use mathlib.Core.List.{Sublistᴰ}
use mathlib.Core.List.Sublistᴰ
use zts_airdrop.Airdrop.{Progress, journal_error, run}
use zts_airdrop.Airdrop.Finished.{run_attempts_all}
use zts_airdrop.Airdrop.Paying.{world_desk, run-IsPaid}
use zts_airdrop.Airdrop.Resume.{assign_all}
use zts_airdrop.Airdrop.Trace.{unpaid}
use zts_airdrop.Base.{
  ℕ, ◌<◌, ◌≡◌, refl, ◌∙◌, ap, ◌⊎◌, ◌≢◌, inl, inr, Bool, true, false, if◌then◌else◌, List, [], ◌++◌,
  map, Option, none, some, Bytes, Err, ℤ, times, Result, ok, err, arith, length, append-nil,
  append_assoc,
}
use zts_airdrop.Effect.{next, next_cases}
use zts_airdrop.Journal.{PaidMap, max_line, run_key, paid, open_journal}
use zts_airdrop.Journal.ReadBack.{IsJson}
use zts_airdrop.Journal.Recorded.{IsReadAs, payment_line}
use zts_airdrop.Ledger.{Token}
use zts_airdrop.Options.{Options}
use zts_airdrop.Plan.{RunPlan, Session, on_world, settings_of, outcome, send_out, conclude, collect}
use zts_airdrop.Plan.Stages.{
  IsHanded, IsFunded, IsReadable, open_journal-IsReadAs, open_journal-posts, open_journal_failed,
}
use zts_airdrop.Sender.{Sender}
use zts_airdrop.Sender.Posts.{paying, taking, payments}
use zts_airdrop.World.{Host, World}
use zts_airdrop.Zenon.{Zenon, IsLawful}

module _ (Z : Zenon) (H : Host Z) where
  abbrev pub plan_key : RunPlan Z H → ℤ → Bytes
  plan_key p amount = run_key Z p.zts amount p.from p.to

  module _ (rounds : ℕ) (o : Options) (p : RunPlan Z H) (amount : ℤ) (m : PaidMap Z)
      (w : World Z H) where
    abbrev path : Bytes
    path = o.journal_path

    -- the world once the journal is read and, if the flag asks for it, the blocks that wait
    -- for the account are received
    abbrev pub gathered : World Z H
    gathered = (collect Z H rounds o p.sender (paid Z H path (plan_key p amount) w).1).1

    -- the receives that a plan collected are those of its stage behind the reading of the
    -- journal, and the balance that the node then reported was enough for every recipient that
    -- is still to be paid
    pub record IsBacked (collected : List Z.Hash) : Type 0 where
      pub handed : IsHanded Z H w collected gathered
      pub funded : IsFunded Z H p (times amount (length (unpaid Z m p.recipients))) gathered

    -- What a plan did, given the paid map of its run: receives first, then one payment of the
    -- amount of the token for each of some of the unpaid recipients, in their order.
    pub record IsPlanned (r : Result (Unit {0})) (v : World Z H) : Type 0 where
      pub collected : List Z.Hash
      pub tried : List Z.Address
      pub recorded : List (Z.Address × Z.Hash)
      pub posted :
          payments Z v.posted
          ≡ payments Z w.posted ++ (map (taking Z) collected ++ map (paying Z amount p.zts) tried)
      pub dry : p.sending ≡ false → tried ≡ []
      pub backed : (tried ≡ []) ⊎ IsBacked collected
      pub in_order : Sublistᴰ tried (unpaid Z m p.recipients)
      pub recorded_tried : Sublistᴰ (map (λ (x : Z.Address × Z.Hash). x.0) recorded) tried
      pub read_back :
          ((a : Z.Address) × (h : Z.Hash) × (e : Err) × (r ≡ err (journal_error Z a h e)))
          ⊎ IsReadable Z H path (plan_key p amount) v.file (assign_all Z recorded m)
      pub paid_all :
          p.sending ≡ true → r ≡ ok tt → length recorded ≡ length (unpaid Z m p.recipients)

  module _ (lawful : IsLawful Z) (json : IsJson Z H) (o : Options) (p : RunPlan Z H)
      (token : Token Z) (amount : ℤ)
      (short : (n : ℕ) (a : Z.Address) (h : Z.Hash) (w : World Z H)
        → length (payment_line Z H o.journal_path (plan_key p amount) n a amount p.zts h w)
          < max_line)
      (rounds : ℕ) (m : PaidMap Z) (w : World Z H) where
    abbrev pub Plans : Result (Unit {0}) × Session Z H → Type 0
    Plans q = IsPlanned rounds o p amount m w q.0 q.1.world

    module _ (readable : IsReadable Z H o.journal_path (plan_key p amount) w.file m) where
      -- a plan that ended before its sends
      stopped :
          (k : List Z.Hash) {v : World Z H} (r : Result (Unit {0}))
          → payments Z v.posted ≡ payments Z w.posted ++ map (taking Z) k
          → IsReadable Z H o.journal_path (plan_key p amount) v.file m
          → (p.sending ≡ true → r ≢ ok tt)
          → IsPlanned rounds o p amount m w r v
      unfolding assign_all
      stopped k r posted still unfinished = record {
        collected = k;
        tried = [];
        recorded = [];
        posted = rw append-nil posted;
        dry = λ e. refl;
        backed = inl refl;
        in_order = Sublistᴰ.nil-sublist _;
        recorded_tried = Sublistᴰ.slnil;
        read_back = inr still;
        paid_all = λ s e. absurd (unfinished s e);
      }

      -- and before the journal was opened
      pub halted :
          (k : List Z.Hash) {v : World Z H} (r : Result (Unit {0}))
          → IsHanded Z H w k v
          → (p.sending ≡ true → r ≢ ok tt)
          → IsPlanned rounds o p amount m w r v
      halted k r x = stopped k r x.posted (rw x.file_kept readable)

      outcome_clear :
          (q : Progress Z) → outcome Z H q ≡ ok tt → (q.halt ≡ none) × (q.report.failed ≡ 0)
      unfolding outcome
      outcome_clear q e = ground arith

      outcome_halt : (q : Progress Z) {e : Err} → q.halt ≡ some e → outcome Z H q ≡ err e
      unfolding outcome
      outcome_halt q h = ground arith

      send_out-IsPlanned :
          {k : List Z.Hash} (sender : Sender Z H) (s : Session Z H)
          → p.sending ≡ true
          → payments Z s.world.posted ≡ payments Z w.posted ++ map (taking Z) k
          → IsReadAs Z H o.journal_path (plan_key p amount) s.world.file m
          → IsBacked rounds o p amount m w k
          → Plans (send_out Z H o p amount (plan_key p amount) m (some sender) s)
      unfolding send_out settings_of
      send_out-IsPlanned {k} sender s sending posted read backed =
          let cfg = settings_of Z H o amount in
          let desk = world_desk Z H (plan_key p amount) cfg p.zts sender in
          let q = (run Z desk cfg p.recipients m s.world).0 in
          let x =
            run-IsPaid Z H (plan_key p amount) cfg p.zts sender lawful json o.journal_path short m
              refl p.recipients s.world read in
          record {
            collected = k;
            tried = x.tried;
            recorded = x.recorded;
            posted =
                x.posted
                ∙ ap (λ l. l ++ map (paying Z amount p.zts) x.tried) posted
                ∙ append_assoc (payments Z w.posted) (map (taking Z) k)
                    (map (paying Z amount p.zts) x.tried);
            dry = λ e. absurd (ground arith);
            backed = inr backed;
            in_order = x.in_order;
            recorded_tried = x.recorded_tried;
            read_back = elim x.read_back [
              | inl (a, h, e, halt) ↦ inl (a, h, e, outcome_halt q halt)
              | inr y ↦ inr (record { whole = y.whole; reads = y.reads })
            ];
            paid_all = λ _ e.
                let (ended, clear) = outcome_clear q e in
                omega (
                  arith,
                  x.counted,
                  clear,
                  run_attempts_all Z cfg desk p.recipients m s.world ended,
                );
          }

      opened_lem :
          {k : List Z.Hash} (t : Session Z H)
          → IsHanded Z H w k t.world
          → (open_journal Z H t.world).0 ≡ ok tt
          → (payments Z (open_journal Z H t.world).1.posted
              ≡ payments Z w.posted ++ map (taking Z) k)
            × IsReadAs Z H o.journal_path (plan_key p amount) (open_journal Z H t.world).1.file m
      opened_lem t handed went = (
        ap (payments Z) (open_journal-posts Z H o.journal_path (plan_key p amount) t.world)
            ∙ handed.posted,
        open_journal-IsReadAs Z H o.journal_path (plan_key p amount) m t.world
            (rw handed.file_kept readable) went,
      )

      opened_planned :
          {k : List Z.Hash} (t : Session Z H)
          → IsHanded Z H w k t.world
          → p.sending ≡ true
          → ((sender : Sender Z H) → p.sender ≡ some sender → IsBacked rounds o p amount m w k)
          → (open_journal Z H t.world).0 ≡ ok tt
          → (sender : Option (Sender Z H)) → p.sender ≡ sender
          → Plans (
              send_out Z H o p amount
                (plan_key p amount)
                m
                sender
                (record t { world = (open_journal Z H t.world).1 }))
      unfolding send_out
      opened_planned {k} t handed sending backed went none e =
          let (posted, read) = opened_lem t handed went in
          stopped k _ posted (record { whole = read.whole; reads = read.reads })
            (λ _ same. absurd (ground arith))
      opened_planned t handed sending backed went (some sender) e =
          let (posted, read) = opened_lem t handed went in
          send_out-IsPlanned sender (record t { world = (open_journal Z H t.world).1 }) sending
            posted read (backed sender e)

      by_sending :
          {k : List Z.Hash} (t : Session Z H)
          → IsHanded Z H w k t.world
          → (p.sending ≡ true
              → (sender : Sender Z H) → p.sender ≡ some sender
              → IsBacked rounds o p amount m w k)
          → (sending : Bool) → p.sending ≡ sending
          → Plans (
              if sending
              then next
                  (λ _. send_out Z H o p amount (plan_key p amount) m p.sender)
                  (on_world Z H (open_journal Z H) t)
              else (ok tt, t))
      by_sending {k} t handed backed false dry =
          halted k (ok tt) handed (λ e. absurd (ground arith))
      by_sending {k} t handed backed true sending =
          next_cases Plans (λ _. send_out Z H o p amount (plan_key p amount) m p.sender)
            (on_world Z H (open_journal Z H) t)
            (λ e failed.
              stopped k (err e)
                (ap (payments Z) (open_journal-posts Z H o.journal_path (plan_key p amount) t.world)
                  ∙ handed.posted)
                (rw
                  (
                    open_journal_failed Z H o.journal_path (plan_key p amount) t.world failed,
                    handed.file_kept,
                  )
                  readable)
                (λ _ same. absurd (ground arith)))
            (λ _ went. opened_planned t handed sending (backed sending) went p.sender refl)

      pub conclude-IsPlanned :
          {k : List Z.Hash} (t : Session Z H)
          → IsHanded Z H w k t.world
          → (p.sending ≡ true
              → (sender : Sender Z H) → p.sender ≡ some sender
              → IsBacked rounds o p amount m w k)
          → Plans (conclude Z H o p amount (plan_key p amount) m t)
      unfolding conclude
      conclude-IsPlanned {k} t handed backed = by_sending t handed backed p.sending refl
