-- ===== src/Journal.antt =====
-- journal.go: the append-only record of payments, and what a later run reads from it.
pub mod Lines
pub mod ReadBack
pub mod Recorded
pub mod Keys
use zts_airdrop.Base.{
  ℕ, ◌+◌, ◌*◌, ◌&&◌, List, [], ◌∷◌, ◌++◌, Option, none, some, Bytes, codes, Err, outside, wrapf, ℤ,
  Result, ok, err, leb, ◌==◌, if◌then◌else◌, is_empty, length, take, ite,
}
use zts_airdrop.Decimal.{decimal, decimal_int}
use zts_airdrop.Effect.{M}
use zts_airdrop.Text.{same_text}
use zts_airdrop.World.{Entry, Host, World}
use zts_airdrop.Zenon.{Zenon}

-- `bufio.ScanLines`: a last line with no newline counts if it is not empty
unfoldable pub push : ℕ → List Bytes → List Bytes
push c [] = (c ∷ []) ∷ []
push c (l ∷ ls) = (c ∷ l) ∷ ls

unfoldable pub split_lines : Bytes → List Bytes
split_lines [] = []
split_lines (c ∷ s) = let rest = split_lines s in if c == 10 then [] ∷ rest else push c rest

-- the carriage return that `ScanLines` drops
unfoldable pub drop_cr : Bytes → Bytes
drop_cr [] = []
drop_cr (c ∷ s) = let rest = drop_cr s in if c == 13 && is_empty s then [] else c ∷ rest

-- the scanner's buffer, which a line must be shorter than
abbrev pub max_line : ℕ
max_line = 1024 * 1024

abbrev pub text_of : Option Bytes → Bytes
text_of none = []
text_of (some content) = content

module _ (Z : Zenon) where
  -- the map from address to the text of the hash it was paid in, each address once
  abbrev pub PaidMap : Type 0
  PaidMap = List (Z.Address × Bytes)

  unfoldable pub find : Z.Address → PaidMap → Option Bytes
  find a [] = none
  find a ((b, h) ∷ m) = ite (Z.address_discrete b a) (some h) (find a m)

  -- `paid[addr] = hash`
  unfoldable pub assign : Z.Address → Bytes → PaidMap → PaidMap
  assign a h [] = (a, h) ∷ []
  assign a h ((b, g) ∷ m) = ite (Z.address_discrete b a) ((b, h) ∷ m) ((b, g) ∷ assign a h m)

  -- `RunKey`
  unfoldable pub run_preimage : Z.Zts → ℤ → ℕ → ℕ → Bytes
  run_preimage zts amount from to =
      Z.zts_string zts
      ++ (b'|' ∷ (decimal_int amount ++ (b'|' ∷ (decimal from ++ (b'|' ∷ decimal to)))))

  unfoldable pub run_key : Z.Zts → ℤ → ℕ → ℕ → Bytes
  unfolding run_preimage
  run_key zts amount from to = take 16 (Z.sha256_hex (run_preimage zts amount from to))

module _ (Z : Zenon) (H : Host Z) where
  -- an entry of this run is taken into the map, one of another run is skipped
  unfoldable pub take_entry : Bytes → (Err → Err) → Entry → PaidMap Z → Result (PaidMap Z)
  take_entry run located e m =
      if same_text e.run run
      then elim (Z.parse_address e.address) [
        | err x ↦ err (located x)
        | ok addr ↦ ok (assign Z addr e.hash m)
      ]
      else ok m

  unfoldable pub take_line : Bytes → (Err → Err) → Bytes → PaidMap Z → Result (PaidMap Z)
  unfolding take_entry
  take_line run located raw m =
      if is_empty raw
      then ok m
      else elim (H.decode_entry raw) [ err x ↦ err (located x) | ok e ↦ take_entry run located e m ]

  -- the loop of `Paid` from line `n` on
  unfoldable pub take_lines : Bytes → Bytes → ℕ → List Bytes → PaidMap Z → Result (PaidMap Z)
  take_lines path run n [] m = ok m
  take_lines path run n (l ∷ ls) m =
      if leb max_line (length l)
      then err (outside (codes "bufio.Scanner: token too long"))
      else elim (take_line run (wrapf "%s line %d: %w" (path ∷ decimal n ∷ [])) (drop_cr l) m) [
        | err x ↦ err x
        | ok m' ↦ take_lines path run (n + 1) ls m'
      ]

  -- what a file of this text says
  unfoldable pub paid_in : Bytes → Bytes → Option Bytes → Result (PaidMap Z)
  unfolding take_lines take_line
  paid_in path run none = ok []
  paid_in path run (some text) = take_lines path run 1 (split_lines text) []

  -- `Paid`
  unfoldable pub paid : Bytes → Bytes → M (World Z H) (PaidMap Z)
  paid path run w =
      let (failure, net) = H.open_read w.net in
      elim w.file [
        | none ↦ (ok [], w)
        | some content ↦ elim failure [
          | some e ↦ (err e, record w { net = net })
          | none ↦ (paid_in path run (some content), record w { net = net })
        ]
      ]

  -- `OpenJournal`
  unfoldable pub open_journal : M (World Z H) (Unit {0})
  open_journal w =
      let (failure, net) = H.open_append w.net in
      elim failure [
        | some e ↦ (err (wrapf "open journal: %w" [] e), record w { net = net })
        | none ↦ (ok tt, record w { net = net; file = some (text_of w.file) })
      ]

  unfoldable pub entry : Bytes → ℕ → Z.Address → ℤ → Z.Zts → Z.Hash → ℕ → Entry
  entry run index addr amount zts hash time = record {
    run = run;
    index = index;
    address = Z.address_string addr;
    amount = decimal_int amount;
    zts = Z.zts_string zts;
    hash = Z.hash_string hash;
    time = time;
  }

  -- the bytes of a line reach the file up to where the write failed, and then the file is synced
  unfoldable pub append_line : Bytes → M (World Z H) (Unit {0})
  append_line line w =
      let ((reached, failure), net) = H.write line w.net in
      let (unsynced, net') = H.sync net in
      elim failure [
        | some e ↦
            (err e, record w { net = net; file = some (text_of w.file ++ take reached line) })
        | none ↦ (
          elim unsynced [ some e ↦ err e | none ↦ ok tt ],
          record w { net = net'; file = some (text_of w.file ++ line) },
        )
      ]

  -- `Record`
  unfoldable pub record_payment :
      Bytes → ℕ → Z.Address → ℤ → Z.Zts → Z.Hash → M (World Z H) (Unit {0})
  unfolding entry append_line
  record_payment run index addr amount zts hash w =
      let (t, net) = H.now w.net in
      append_line (H.encode_entry (entry run index addr amount zts hash t) ++ (10 ∷ []))
        (record w { net = net })
