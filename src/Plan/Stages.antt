-- ===== src/Plan/Stages.antt =====
-- What each stage of a plan does to the world before the sends.
use zts_airdrop.Airdrop.Trace.{unpaid}
use zts_airdrop.Base.{
  ℕ, ◌≡◌, refl, ◌∙◌, ap, inl, inr, true, false, ◌&&◌, List, [], ◌∷◌, ◌++◌, Option, none, some,
  Bytes, Err, ℤ, lt_int, ok, err, arith, length, map, append-nil, Option-cases, Bool-cases,
  Result-cases,
}
use zts_airdrop.Journal.{PaidMap, paid, paid_in, open_journal, text_of, take_lines, split_lines}
use zts_airdrop.Journal.Lines.{IsWhole}
use zts_airdrop.Journal.Recorded.{IsReadAs}
use zts_airdrop.Ledger.{Token}
use zts_airdrop.Options.{Options}
use zts_airdrop.Plan.{RunPlan, Session, annotate, outstanding, collect, estimate, afford}
use zts_airdrop.Rpc.{balance}
use zts_airdrop.Sender.{Sender}
use zts_airdrop.Sender.Posts.{
  taking, payments, IsQuiet, balance-IsQuiet, estimate_plasma-IsQuiet, chained,
}
use zts_airdrop.Sender.Receiving.{receive_all-IsCollected}
use zts_airdrop.World.{Host, World}
use zts_airdrop.Zenon.{Zenon}

module _ (Z : Zenon) where
  pub outstanding_lem :
      (m : PaidMap Z) (l : List Z.Address) → (H : _) → outstanding Z H m l ≡ length (unpaid Z m l)
  unfolding outstanding unpaid
  outstanding_lem m [] H = refl
  outstanding_lem m (a ∷ rest) H = ground (arith, outstanding_lem m rest H)

module _ (Z : Zenon) (H : Host Z) where
  -- the receives of some blocks handed in and nothing else, and the file as it was
  pub record IsHanded (w : World Z H) (k : List Z.Hash) (v : World Z H) : Type 0 where
    pub posted : payments Z v.posted ≡ payments Z w.posted ++ map (taking Z) k
    pub file_kept : v.file ≡ w.file

  pub IsHanded-quiet :
      {w v u : World Z H} {k : List Z.Hash} → IsHanded w k v → IsQuiet Z H v u → IsHanded w k u
  IsHanded-quiet x q = record {
    posted = q.same_posts ∙ x.posted;
    file_kept = q.same_file ∙ x.file_kept;
  }

  pub IsHanded-on :
      {w v u : World Z H} {k : List Z.Hash} → IsHanded w [] v → IsHanded v k u → IsHanded w k u
  IsHanded-on {k = k} x y = record {
    posted = y.posted ∙ ap (λ l. l ++ map (taking Z) k) (x.posted ∙ append-nil _);
    file_kept = y.file_kept ∙ x.file_kept;
  }

  pub quiet-IsHanded : {w v : World Z H} → IsQuiet Z H w v → IsHanded w [] v
  quiet-IsHanded q = record { posted = rw append-nil q.same_posts; file_kept = q.same_file }

  pub collect-IsHanded :
      (rounds : ℕ) (o : Options) (sender : Option (Sender Z H)) (w : World Z H)
      → (k : List Z.Hash) × IsHanded w k (collect Z H rounds o sender w).1
  unfolding collect
  collect-IsHanded rounds o none w = ([], record { posted = rw append-nil refl; file_kept = refl })
  collect-IsHanded rounds o (some sender) w = elim (Bool-cases o.receive) [
    | inl asked ↦
        let x = receive_all-IsCollected Z H rounds sender w in
        rw asked (x.handed_in, record { posted = x.posted; file_kept = x.file_kept })
    | inr unasked ↦ rw unasked ([], record { posted = rw append-nil refl; file_kept = refl })
  ]

  estimate-IsQuiet :
      (sender : Sender Z H) (l : List Z.Address) (w : World Z H)
      → IsQuiet Z H w (estimate Z H sender l w).1
  unfolding estimate
  estimate-IsQuiet sender [] w = record { same_posts = refl; same_file = refl; same_last = refl }
  estimate-IsQuiet sender (a ∷ rest) w = estimate_plasma-IsQuiet Z H sender a w

  pub annotate_world :
      (o : Options) (p : RunPlan Z H) (token : Token Z) (amount : ℤ) (key : Bytes) (already : ℕ)
      (s : Session Z H)
      → (annotate Z H o p token amount key already s).world ≡ s.world
  unfolding annotate
  annotate_world o p token amount key already s = elim (Option-cases s.scan_log) [
    | inl n ↦ rw (n, annotate) refl
    | inr (l, e) ↦ rw (e, annotate) refl
  ]

  module _ (p : RunPlan Z H) (needed : ℤ) where
    -- the node reported a balance that is not below what is needed
    pub record IsFunded (w : World Z H) : Type 0 where
      pub held : ℤ
      pub reported : (balance Z H p.self p.zts w).0 ≡ ok held
      pub enough : lt_int held needed ≡ false

  module _ (p : RunPlan Z H) (token : Token Z) (needed : ℤ) where
    pub afford-IsQuiet :
        (sender : Option (Sender Z H)) (w : World Z H)
        → IsQuiet Z H w (afford Z H p token needed sender w).1
    unfolding afford
    afford-IsQuiet none w = record { same_posts = refl; same_file = refl; same_last = refl }
    afford-IsQuiet (some sender) w =
        let asked = balance-IsQuiet Z H p.self p.zts w in
        elim (Result-cases (balance Z H p.self p.zts w).0) [
          | inr (x, failed) ↦ rw failed asked
          | inl (held, reported) ↦ elim (Bool-cases (lt_int held needed && p.sending)) [
            | inl short ↦ rw (reported, short) asked
            | inr enough ↦
                rw (reported, enough)
                  (chained Z H asked
                    (estimate-IsQuiet sender p.recipients (balance Z H p.self p.zts w).1))
          ]
        ]

    pub afford-IsFunded :
        (sender : Sender Z H) (w : World Z H)
        → p.sending ≡ true
        → (afford Z H p token needed (some sender) w).0 ≡ ok tt
        → IsFunded p needed w
    unfolding afford
    afford-IsFunded sender w sending e = elim (Result-cases (balance Z H p.self p.zts w).0) [
      | inr (x, failed) ↦ absurd (ground arith)
      | inl (held, reported) ↦ elim (Bool-cases (lt_int held needed)) [
        | inl low ↦ absurd (ground arith)
        | inr enough ↦ record { held = held; reported = reported; enough = enough }
      ]
    ]

module _ (Z : Zenon) (H : Host Z) (path run : Bytes) where
  -- the file, if there is one, ends in a whole line, and `Paid` reads it as `m`
  pub record IsReadable (file : Option Bytes) (m : PaidMap Z) : Type 0 where
    pub whole : IsWhole (text_of file)
    pub reads : paid_in Z H path run file ≡ ok m

  pub paid_reads :
      (m : PaidMap Z) (w : World Z H) {l : PaidMap Z}
      → IsReadable w.file m
      → (paid Z H path run w).0 ≡ ok l
      → l ≡ m
  unfolding paid paid_in
  paid_reads m w h e = ground arith

  pub paid-IsQuiet : (w : World Z H) → IsQuiet Z H w (paid Z H path run w).1
  unfolding paid
  paid-IsQuiet w = elim (Option-cases w.file) [
    | inl n ↦ rw (n, paid) (record { same_posts = refl; same_file = n; same_last = refl })
    | inr (c, f) ↦ elim (Option-cases (H.open_read w.net).0) [
      | inl opened ↦
          rw (f, opened, paid) (record { same_posts = refl; same_file = f; same_last = refl })
      | inr (x, failed) ↦
          rw (f, failed, paid) (record { same_posts = refl; same_file = f; same_last = refl })
    ]
  ]

  -- no file reads like an empty one
  read_of_text :
      (file : Option Bytes) (m : PaidMap Z)
      → paid_in Z H path run file ≡ ok m
      → paid_in Z H path run (some (text_of file)) ≡ ok m
  unfolding paid_in take_lines split_lines
  read_of_text none m e = e
  read_of_text (some content) m e = e

  pub open_journal-IsReadAs :
      (m : PaidMap Z) (w : World Z H)
      → IsReadable w.file m
      → (open_journal Z H w).0 ≡ ok tt
      → IsReadAs Z H path run (open_journal Z H w).1.file m
  unfolding open_journal
  open_journal-IsReadAs m w h e = elim (Option-cases (H.open_append w.net).0) [
    | inr (x, failed) ↦ absurd (ground arith)
    | inl opened ↦
        rw (opened, open_journal)
          (record { whole = h.whole; exists = refl; reads = read_of_text w.file m h.reads })
  ]

  pub open_journal-posts : (w : World Z H) → (open_journal Z H w).1.posted ≡ w.posted
  unfolding open_journal
  open_journal-posts w = ground arith

  pub open_journal_failed :
      (w : World Z H) {e : Err}
      → (open_journal Z H w).0 ≡ err e
      → (open_journal Z H w).1.file ≡ w.file
  unfolding open_journal
  open_journal_failed w e = ground arith
