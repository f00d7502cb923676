-- ===== src/Plan/Complete.antt =====
-- A plan that sends and ends without an error paid everyone.
use mathlib.Core.List.{Sublistᴰ}
use zts_airdrop.Airdrop.Resume.{assign_all}
use zts_airdrop.Airdrop.Trace.{unpaid}
use zts_airdrop.Base.{
  ℕ, suc, ◌≤◌, ◌<◌, ◌≡◌, refl, sym, ap, ◌∙◌, inl, inr, true, List, [], ◌∷◌, ◌++◌, map, some, Bytes,
  ℤ, ok, arith, length,
}
use zts_airdrop.Journal.{PaidMap, max_line}
use zts_airdrop.Journal.ReadBack.{IsJson}
use zts_airdrop.Journal.Recorded.{payment_line}
use zts_airdrop.Ledger.{Token}
use zts_airdrop.Options.{Options}
use zts_airdrop.Plan.{RunPlan, Session, plan_and_send}
use zts_airdrop.Plan.Outcome.{plan_key}
use zts_airdrop.Plan.Planned.{plan_and_send-IsPlanned}
use zts_airdrop.Plan.Stages.{IsReadable}
use zts_airdrop.Sender.Posts.{paying, taking, payments}
use zts_airdrop.World.{Host, World}
use zts_airdrop.Zenon.{Zenon, IsLawful}

length-sublist : {A : Type 0} {l r : List A} → Sublistᴰ l r → length l ≤ length r
length-sublist Sublistᴰ.slnil = omega arith
length-sublist (Sublistᴰ.cons s) = omega (arith, length-sublist s)
length-sublist (Sublistᴰ.cons-cons e s) = omega (arith, length-sublist s)

-- a part that is as long as the whole is the whole
whole_of_length : {A : Type 0} {l r : List A} → Sublistᴰ l r → length l ≡ length r → l ≡ r
whole_of_length Sublistᴰ.slnil h = refl
whole_of_length (Sublistᴰ.cons s) h = absurd (omega (arith, length-sublist s, h))
whole_of_length (Sublistᴰ.cons-cons e s) h = let same = whole_of_length s (omega (arith, h)) in cc

length-map : {A B : Type 0} (f : A → B) (l : List A) → length (map f l) ≡ length l
length-map f [] = refl
length-map f (a ∷ l) = ap suc (length-map f l)

module _ (Z : Zenon) (H : Host Z) where
  -- one payment posted and recorded for every unpaid recipient, in their order
  pub record IsPaidOff (path : Bytes) (p : RunPlan Z H) (amount : ℤ) (m : PaidMap Z)
      (w v : World Z H) : Type 0 where
    pub collected : List Z.Hash
    pub recorded : List (Z.Address × Z.Hash)
    pub posted :
        payments Z v.posted
        ≡ payments Z w.posted
          ++ (map (taking Z) collected ++ map (paying Z amount p.zts) (unpaid Z m p.recipients))
    pub everyone : map (λ (x : Z.Address × Z.Hash). x.0) recorded ≡ unpaid Z m p.recipients
    pub read_back : IsReadable Z H path (plan_key Z H p amount) v.file (assign_all Z recorded m)

  module _ (lawful : IsLawful Z) (json : IsJson Z H) (o : Options) (p : RunPlan Z H)
      (token : Token Z) (amount : ℤ)
      (short : (n : ℕ) (a : Z.Address) (h : Z.Hash) (w : World Z H)
        → length (payment_line Z H o.journal_path (plan_key Z H p amount) n a amount p.zts h w)
          < max_line) where
    -- If planAndSend sends, for a token and an amount, and returns no error, then it posted
    -- one payment of the amount of the token for every recipient that the journal did not
    -- name, in their order, behind its receives, recorded exactly these, and Paid then reads
    -- all of them back. It assumes that the journal is missing or ends in a whole line and
    -- that Paid can read it to begin with, the documented behaviour of JSON and of address
    -- texts, and that the lines are shorter than the scanner's buffer.
    pub plan_and_send-IsPaidOff :
        (rounds : ℕ) (m : PaidMap Z) (s : Session Z H)
        → p.token ≡ some token
        → p.amount ≡ some amount
        → IsReadable Z H o.journal_path (plan_key Z H p amount) s.world.file m
        → p.sending ≡ true
        → let q = plan_and_send Z H rounds o p s in
          q.0 ≡ ok tt → IsPaidOff o.journal_path p amount m s.world q.1.world
    plan_and_send-IsPaidOff rounds m s named valued readable sending e =
        let x =
          plan_and_send-IsPlanned Z H lawful json o p token amount short rounds m s named valued
            readable in
        let addresses = map (λ (x : Z.Address × Z.Hash). x.0) x.recorded in
        let size = length-map (λ (x : Z.Address × Z.Hash). x.0) x.recorded in
        let full = x.paid_all sending e in
        let most = length-sublist x.in_order in
        let least = length-sublist x.recorded_tried in
        let tried : x.tried ≡ unpaid Z m p.recipients =
          whole_of_length x.in_order (omega (arith, size, full, most, least)) in
        let listed : addresses ≡ x.tried =
          whole_of_length x.recorded_tried (omega (arith, size, full, most, least)) in
        record {
          collected = x.collected;
          recorded = x.recorded;
          posted = rw (sym tried) x.posted;
          everyone = listed ∙ tried;
          read_back = elim x.read_back [
            | inl (a, h, f, failed) ↦ absurd (ground arith)
            | inr read ↦ read
          ];
        }
