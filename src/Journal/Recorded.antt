-- ===== src/Journal/Recorded.antt =====
-- Record, and then Paid.
use zts_airdrop.Base.{
  ℕ, ◌<◌, ◌≡◌, refl, [], ◌∷◌, ◌++◌, Option, some, Bytes, ℤ, ok, arith, length, Option-cases, inl,
  inr,
}
use zts_airdrop.Journal.{
  max_line, PaidMap, assign, paid_in, entry, append_line, record_payment, text_of,
}
use zts_airdrop.Journal.Lines.{IsWhole}
use zts_airdrop.Journal.ReadBack.{IsJson, paid_in-recorded}
use zts_airdrop.World.{Host, World}
use zts_airdrop.Zenon.{Zenon, IsLawful}

module _ (Z : Zenon) (H : Host Z) (path run : Bytes) where
  -- the journal's file ends in a whole line, and a later `Paid` reads it as `m`
  pub record IsReadAs (file : Option Bytes) (m : PaidMap Z) : Type 0 where
    pub whole : IsWhole (text_of file)
    pub exists : file ≡ some (text_of file)
    pub reads : paid_in Z H path run file ≡ ok m

  -- the line that a call of `Record` writes
  abbrev pub payment_line : ℕ → Z.Address → ℤ → Z.Zts → Z.Hash → World Z H → Bytes
  payment_line index a amount zts hash w =
      H.encode_entry (entry Z H run index a amount zts hash (H.now w.net).0)

  append_line_file :
      (line : Bytes) (w : World Z H)
      → (append_line Z H line w).0 ≡ ok tt
      → (append_line Z H line w).1.file ≡ some (text_of w.file ++ line)
  unfolding append_line
  append_line_file line w e = elim (Option-cases (H.write line w.net).0.1) [
    | inl n ↦ rw (n, append_line) refl
    | inr (x, f) ↦ absurd (ground arith)
  ]

  -- If Record returns without an error on a file that ends in a whole line and that Paid reads
  -- as some map, then the file ends in a whole line again and Paid reads that map with the
  -- payment added. It assumes the documented behaviour of JSON on an entry, IsJson, and of
  -- address texts, IsLawful, and that the line is shorter than the scanner's buffer.
  pub record_payment-reads :
      IsLawful Z
      → IsJson Z H
      → (index : ℕ) (a : Z.Address) (amount : ℤ) (zts : Z.Zts) (hash : Z.Hash) (w : World Z H)
        (m : PaidMap Z)
      → IsReadAs w.file m
      → length (payment_line index a amount zts hash w) < max_line
      → (record_payment Z H run index a amount zts hash w).0 ≡ ok tt
      → IsReadAs
          (record_payment Z H run index a amount zts hash w).1.file
          (assign Z a (Z.hash_string hash) m)
  unfolding record_payment
  record_payment-reads lawful json index a amount zts hash w m h short e =
      let line = payment_line index a amount zts hash w in
      let (whole, reads) =
        paid_in-recorded Z H lawful json path run (text_of w.file) m index a amount zts hash
          (H.now w.net).0 h.whole (rw h.exists at h.reads) short in
      let file = append_line_file (line ++ (10 ∷ [])) (record w { net = (H.now w.net).1 }) e in
      rw file (record { whole = whole; exists = refl; reads = reads })
