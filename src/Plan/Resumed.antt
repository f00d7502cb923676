-- ===== src/Plan/Resumed.antt =====
-- A plan, and a later one of the same run over the file that it left.
use mathlib.Core.List.{Memᴰ, Sublistᴰ}
use zts_airdrop.Airdrop.{journal_error}
use zts_airdrop.Airdrop.Resume.{assign_all, find-assign_all, none_twice}
use zts_airdrop.Airdrop.Trace.{unpaid}
use zts_airdrop.Base.{
  ℕ, ◌<◌, ◌≡◌, refl, ◌∙◌, ap, inl, inr, List, ◌++◌, map, some, Err, Bytes, ℤ, ok, err, length, ◌≢◌,
}
use zts_airdrop.Journal.{PaidMap, find, paid_in, max_line}
use zts_airdrop.Journal.ReadBack.{IsJson}
use zts_airdrop.Journal.Recorded.{payment_line}
use zts_airdrop.Ledger.{Token}
use zts_airdrop.Options.{Options}
use zts_airdrop.Plan.{RunPlan, Session, plan_and_send}
use zts_airdrop.Plan.Outcome.{plan_key}
use zts_airdrop.Plan.Planned.{plan_and_send-IsPlanned}
use zts_airdrop.Plan.Stages.{IsReadable}
use zts_airdrop.Sender.Posts.{paying, taking, payments}
use zts_airdrop.World.{Host, World}
use zts_airdrop.Zenon.{Zenon, IsLawful}

module _ (Z : Zenon) (H : Host Z) where
  -- What two plans of one run did, from `w` to the end of the first at `u` and to the end of the
  -- second at `v`: each posted receives and then payments; the journal that the first left reads
  -- as the payments that it recorded, added to the map before; and the second tried some of the
  -- recipients that this journal does not name, in their order, and nobody that it names.
  pub record IsResumedPlan (o : Options) (p : RunPlan Z H) (amount : ℤ) (m : PaidMap Z)
      (candidates : List Z.Address) (w u v : World Z H) : Type 0 where
    pub collected : List Z.Hash
    pub tried : List Z.Address
    pub recorded : List (Z.Address × Z.Hash)
    pub recorded_tried : Sublistᴰ (map (λ (x : Z.Address × Z.Hash). x.0) recorded) tried
    pub known : PaidMap Z
    pub known_recorded : known ≡ assign_all Z recorded m
    pub recorded_found :
        (x : Z.Address)
        → Memᴰ x (map (λ (p : Z.Address × Z.Hash). p.0) recorded)
        → (g : Bytes) × (find Z x known ≡ some g)
    pub read : paid_in Z H o.journal_path (plan_key Z H p amount) u.file ≡ ok known
    pub collected_again : List Z.Hash
    pub tried_again : List Z.Address
    pub posted :
        payments Z u.posted
        ≡ payments Z w.posted ++ (map (taking Z) collected ++ map (paying Z amount p.zts) tried)
    pub posted_again :
        payments Z v.posted
        ≡ payments Z u.posted
          ++ (map (taking Z) collected_again ++ map (paying Z amount p.zts) tried_again)
    pub in_order : Sublistᴰ tried_again (unpaid Z known candidates)
    pub none_twice : (x : Z.Address) (g : Bytes) → find Z x known ≡ some g → ¬ Memᴰ x tried_again

  module _ (lawful : IsLawful Z) (json : IsJson Z H) (o : Options) (token : Token Z) (amount : ℤ)
      (p : RunPlan Z H)
      (short : (n : ℕ) (a : Z.Address) (h : Z.Hash) (w : World Z H)
        → length (payment_line Z H o.journal_path (plan_key Z H p amount) n a amount p.zts h w)
          < max_line) where
    -- Two calls of planAndSend for one run, the second one in a state that shares only the
    -- posts and the journal's file with the end of the first, with any recipients, as after a
    -- restart: each posts receives and then payments of the amount of the token, and nothing
    -- else; behind the first, Paid reads from the journal's file the payments that it
    -- recorded, which are among those that it posted, added to what it read before; and the
    -- second pays only recipients that Paid does not find there, so none that the first
    -- recorded, in their order. It assumes that the journal is missing or ends in a whole line
    -- and that Paid can read it to begin with, that the first call did not end on a failed
    -- journal write, the documented behaviour of JSON and of address texts, and that the lines
    -- are shorter than the scanner's buffer.
    pub plan_and_send-IsResumedPlan :
        (rounds rounds_again : ℕ) (m : PaidMap Z) (s t : Session Z H)
        → p.token ≡ some token
        → p.amount ≡ some amount
        → IsReadable Z H o.journal_path (plan_key Z H p amount) s.world.file m
        → let q = plan_and_send Z H rounds o p s in
          ((a : Z.Address) (h : Z.Hash) (e : Err) → q.0 ≢ err (journal_error Z a h e))
          → (candidates : List Z.Address) → t.world.posted ≡ q.1.world.posted
          → t.world.file ≡ q.1.world.file
          → IsResumedPlan o p amount m candidates s.world q.1.world
              (plan_and_send Z H rounds_again o (record p { recipients = candidates }) t).1.world
    plan_and_send-IsResumedPlan rounds rounds_again m s t named valued readable written candidates
          same_posts same_file =
        let first =
          plan_and_send-IsPlanned Z H lawful json o p token amount short rounds m s named valued
            readable in
        let known = assign_all Z first.recorded m in
        let left : IsReadable Z H o.journal_path (plan_key Z H p amount)
            (plan_and_send Z H rounds o p s).1.world.file known =
          elim first.read_back [
            | inl (a, h, e, failed) ↦ absurd (written a h e failed)
            | inr read ↦ read
          ] in
        let again =
          plan_and_send-IsPlanned Z H lawful json o (record p { recipients = candidates }) token
            amount short rounds_again known t named valued (rw same_file left) in
        record {
          collected = first.collected;
          tried = first.tried;
          recorded = first.recorded;
          recorded_tried = first.recorded_tried;
          known = known;
          known_recorded = refl;
          recorded_found = λ x d. find-assign_all Z first.recorded m d;
          read = left.reads;
          collected_again = again.collected;
          tried_again = again.tried;
          posted = first.posted;
          posted_again =
              again.posted
              ∙ ap
                  (λ l.
                    l
                    ++ (map (taking Z) again.collected ++ map (paying Z amount p.zts) again.tried))
                  (ap (payments Z) same_posts);
          in_order = again.in_order;
          none_twice = none_twice Z known candidates again.in_order;
        }
