-- ===== src/Journal/ReadBack.antt =====
-- What a later run reads of the payments that were recorded.
use zts_airdrop.Base.{
  ℕ, ◌+◌, ◌<◌, suc, ◌≡◌, ◌≢◌, refl, sym, ap, ◌∙◌, inl, inr, false, List, [], ◌∷◌, ◌++◌, some, Bytes,
  Err, wrapf, ℤ, Result, ok, err, arith, leb, length, is_empty, Bool-cases, Result-cases, ite,
}
use zts_airdrop.Decimal.{decimal}
use zts_airdrop.Journal.{
  split_lines, drop_cr, max_line, PaidMap, find, assign, take_entry, take_line, take_lines, paid_in,
  entry,
}
use zts_airdrop.Journal.Lines.{
  IsWhole, IsWhole-append, split_lines-append, split_lines-line, drop_cr_lacking,
}
use zts_airdrop.Text.Laws.{Lacks, same_text_refl}
use zts_airdrop.World.{Entry, Host}
use zts_airdrop.Zenon.{Zenon, IsLawful}

ok-injective : {A : Type 0} {a b : A} → ok a ≡ ok b → a ≡ b
ok-injective {a} e = ap (from_ok a) e
  where
    from_ok : {A : Type 0} → A → Result A → A
    from_ok d (ok x) = x
    from_ok d (err x) = d

module _ (Z : Zenon) where
  ite_yes :
      {B : Type 0} {a b : Z.Address} {x : B} (y : B) → a ≡ b → ite (Z.address_discrete a b) x y ≡ x
  ite_yes {a} {b} {x} y e = decided (Z.address_discrete a b)
    where
      decided : (d : Dec (a ≡ b)) → ite d x y ≡ x
      decided (yes _) = refl
      decided (no n) = absurd (n e)

  ite_no :
      {B : Type 0} {a b : Z.Address} (x : B) {y : B} → a ≢ b → ite (Z.address_discrete a b) x y ≡ y
  ite_no {a} {b} x {y} n = decided (Z.address_discrete a b)
    where
      decided : (d : Dec (a ≡ b)) → ite d x y ≡ y
      decided (yes e) = absurd (n e)
      decided (no _) = refl

  -- an address that was assigned is found
  pub find-assign : (a : Z.Address) (h : Bytes) (m : PaidMap Z) → find Z a (assign Z a h m) ≡ some h
  unfolding find assign
  find-assign a h [] = ite_yes _ refl
  find-assign a h ((b, g) ∷ m) = elim (Z.address_discrete b a) [
    | yes e ↦ ap (find Z a) (ite_yes _ e) ∙ ite_yes _ e
    | no n ↦ ap (find Z a) (ite_no _ n) ∙ ite_no _ n ∙ find-assign a h m
  ]

  -- and so is every address that was found before
  pub find-assign_other :
      (a b : Z.Address) (h : Bytes) (m : PaidMap Z) {g : Bytes}
      → find Z b m ≡ some g
      → (k : Bytes) × (find Z b (assign Z a h m) ≡ some k)
  unfolding find assign
  find-assign_other a b h [] e = absurd (ground arith)
  find-assign_other a b h ((c, f) ∷ m) {g} e = elim (Z.address_discrete c a) [
    | yes s ↦ elim (Z.address_discrete c b) [
      | yes t ↦ (h, ap (find Z b) (ite_yes _ s) ∙ ite_yes _ t)
      | no t ↦ (g, ap (find Z b) (ite_yes _ s) ∙ ite_no _ t ∙ sym (ite_no _ t) ∙ e)
    ]
    | no s ↦ elim (Z.address_discrete c b) [
      | yes t ↦ (f, ap (find Z b) (ite_no _ s) ∙ ite_yes _ t)
      | no t ↦
          let (k, later) = find-assign_other a b h m (sym (ite_no _ t) ∙ e) in
          (k, ap (find Z b) (ite_no _ s) ∙ ite_no _ t ∙ later)
    ]
  ]

module _ (Z : Zenon) (H : Host Z) where
  -- The documented behaviour of `json.Marshal` on an entry: it is one line that is not empty,
  -- with control characters escaped, and `json.Unmarshal` reads the entry back.
  pub record IsJson : Type 0 where
    pub decode-encode : (e : Entry) → H.decode_entry (H.encode_entry e) ≡ ok e
    pub one_line : (e : Entry) → Lacks 10 (H.encode_entry e)
    pub no_return : (e : Entry) → Lacks 13 (H.encode_entry e)
    pub nonempty : (e : Entry) → is_empty (H.encode_entry e) ≡ false

  take_lines-append :
      (path run : Bytes) (n : ℕ) (xs ys : List Bytes) (m : PaidMap Z) {m' : PaidMap Z}
      → take_lines Z H path run n xs m ≡ ok m'
      → take_lines Z H path run n (xs ++ ys) m ≡ take_lines Z H path run (n + length xs) ys m'
  unfolding take_lines
  take_lines-append path run n [] ys m e =
      let z : n + 0 ≡ n = omega arith in let same = ok-injective e in rw (z, same)
  take_lines-append path run n (l ∷ ls) ys m {m'} e =
      let located = wrapf "%s line %d: %w" (path ∷ decimal n ∷ []) in
      let z : n + 1 + length ls ≡ n + suc (length ls) = omega arith in
      elim (Bool-cases (leb max_line (length l))) [
        | inl long ↦ absurd (ground arith)
        | inr fits ↦ elim (Result-cases (take_line Z H run located (drop_cr l) m)) [
          | inr (x, bad) ↦ absurd (ground arith)
          | inl (m1, good) ↦ rw (fits) (
              rw good
                (rw z at (take_lines-append path run (n + 1) ls ys m1 (rw good at (rw fits at e)))))
        ]
      ]

  module _ (lawful : IsLawful Z) (json : IsJson) where
    -- the line of a payment of this run
    take_line-entry :
        (run : Bytes) (located : Err → Err) (index : ℕ) (a : Z.Address) (amount : ℤ) (zts : Z.Zts)
        (hash : Z.Hash) (time : ℕ) (m : PaidMap Z)
        → take_line Z H run located (H.encode_entry (entry Z H run index a amount zts hash time)) m
          ≡ ok (assign Z a (Z.hash_string hash) m)
    unfolding take_line take_entry entry
    take_line-entry run located index a amount zts hash time m =
        let e = entry Z H run index a amount zts hash time in
        rw (json.nonempty e) (
          rw (json.decode-encode e)
            (rw (same_text_refl run) (rw (lawful.parse-address_string a) refl)))

    one_more :
        (path run : Bytes) (n : ℕ) (line : Bytes) (m : PaidMap Z) {m' : PaidMap Z}
        → leb max_line (length line) ≡ false
        → Lacks 13 line
        → ((located : Err → Err) → take_line Z H run located line m ≡ ok m')
        → take_lines Z H path run n (line ∷ []) m ≡ ok m'
    unfolding take_lines
    one_more path run n line m fits clean good =
        rw fits (rw (drop_cr_lacking line clean, good) refl)

    -- A recorded payment is read back: behind a file that ends in a whole line and reads as
    -- the map `m`, a payment's line makes the file read as `m` with that payment, and the
    -- file ends in a whole line again.
    pub paid_in-recorded :
        (path run : Bytes) (text : Bytes) (m : PaidMap Z) (index : ℕ) (a : Z.Address) (amount : ℤ)
        (zts : Z.Zts) (hash : Z.Hash) (time : ℕ)
        → IsWhole text
        → paid_in Z H path run (some text) ≡ ok m
        → length (H.encode_entry (entry Z H run index a amount zts hash time)) < max_line
        → let longer =
            text ++ (H.encode_entry (entry Z H run index a amount zts hash time) ++ (10 ∷ [])) in
          IsWhole longer
          × (paid_in Z H path run (some longer) ≡ ok (assign Z a (Z.hash_string hash) m))
    unfolding paid_in
    paid_in-recorded path run text m index a amount zts hash time whole read short =
        let line = H.encode_entry (entry Z H run index a amount zts hash time) in
        let lines = split_lines-append text (line ++ (10 ∷ [])) whole in
        let one = split_lines-line line (json.one_line _) in
        let fits : leb max_line (length line) ≡ false = ground arith in
        (
          IsWhole-append text line whole,
          rw (lines, one)
              (take_lines-append path run 1 (split_lines text) (line ∷ []) [] read
                ∙ one_more path run (1 + length (split_lines text)) line m fits (json.no_return _)
                    (λ located. take_line-entry run located index a amount zts hash time m)),
        )
