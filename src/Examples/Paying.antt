-- ===== src/Examples/Paying.antt =====
-- A run over the sender and the journal, on a chain with two addresses and two hashes.
use zts_airdrop.Airdrop.{Settings, run}
use zts_airdrop.Airdrop.Paying.{world_desk, IsPaid, run-IsPaid}
use zts_airdrop.Base.{
  ℕ, ◌<◌, ◌≡◌, refl, Bool, true, false, [], ◌∷◌, some, Bytes, codes, pos, Result, ok, err, errorf,
  ◌==◌, length, arith,
}
use zts_airdrop.Examples.Machine.{machine, machine-IsJson}
use zts_airdrop.Journal.{paid_in, take_lines, split_lines, max_line, entry}
use zts_airdrop.Journal.Recorded.{IsReadAs, payment_line}
use zts_airdrop.Decimal.{decimal, decimal_int}
use zts_airdrop.Sender.{Sender, send}
use zts_airdrop.Text.Laws.{Lacks}
use zts_airdrop.Sender.Sent.{IsSent, send-IsSent}
use zts_airdrop.Sender.Posts.{paying}
use zts_airdrop.World.{World}
use zts_airdrop.Zenon.{Zenon, IsLawful}

unfoldable pub same_bool : Discrete Bool
same_bool true true = yes refl
same_bool false false = yes refl
same_bool true false = no (λ e. cc)
same_bool false true = no (λ e. cc)

abbrev pub letter : Bool → Bytes
letter true = codes "t"
letter false = codes "f"

abbrev pub read_letter : Bytes → Result Bool
read_letter [] = err (errorf "no letter" [])
read_letter (c ∷ rest) = ok (c == b't')

abbrev pub small : Zenon
small = record {
  Address = Bool;
  Hash = Bool;
  Zts = Unit;
  address_discrete = same_bool;
  hash_discrete = same_bool;
  address_string = letter;
  hash_string = letter;
  zts_string = λ t. codes "z";
  parse_address = read_letter;
  parse_zts = λ s. ok tt;
  zero_address = false;
  zero_hash = false;
  zero_zts = tt;
  is_embedded = λ a. false;
  sha256_hex = λ s. s;
}

read_letter-letter : (b : Bool) → read_letter (letter b) ≡ ok b
read_letter-letter true = refl
read_letter-letter false = refl

letter-Lacks : (b : Bool) → Lacks 10 (letter b)
letter-Lacks true = ((λ e. omega arith), tt)
letter-Lacks false = ((λ e. omega arith), tt)

pub small-IsLawful : IsLawful small
small-IsLawful = record {
  parse-address_string = read_letter-letter;
  address_string_line = letter-Lacks;
  parse-zts_string = λ t. refl;
  zts_string_full = λ t. refl;
  zts_string_bar = λ t. ((λ e. omega arith), tt);
  zts_string_injective = λ t u e. refl;
}

abbrev pub one_hash : ℕ → Bool
one_hash h = true

abbrev pub payer : Sender small (machine small one_hash)
payer = record { key = 1; addr = false; chain = 1; frontier_wait = 90000 }

abbrev journalled : Settings small
journalled = record { amount = pos 5; has_journal = true; delay = 0; stop_after_errors = 3 }

abbrev pub fresh : World small (machine small one_hash)
fresh = record { net = 0; id = 0; posted = []; last_hash = false; file = some [] }

abbrev name : Bytes
name = codes "ab"

reads_nothing : IsReadAs small (machine small one_hash) (codes "paid.jsonl") name (some []) []
unfolding paid_in take_lines split_lines
reads_nothing = record { whole = tt; exists = refl; reads = refl }

pub short_lines :
    (n : ℕ) (a : Bool) (h : Bool) (w : World small (machine small one_hash))
    → length
        (payment_line small (machine small one_hash) (codes "paid.jsonl") name n a (pos 5) tt h w)
      < max_line
unfolding entry decimal_int decimal
short_lines n true true w = omega arith
short_lines n true false w = omega arith
short_lines n false true w = omega arith
short_lines n false false w = omega arith

run-IsPaid_example :
    IsPaid small
      (machine small one_hash)
      name
      journalled
      tt
      payer
      small-IsLawful
      (machine-IsJson small one_hash)
      (codes "paid.jsonl")
      short_lines
      []
      (true ∷ false ∷ [])
      fresh
      (run small
        (world_desk small (machine small one_hash) name journalled tt payer)
        journalled
        (true ∷ false ∷ [])
        []
        fresh)
run-IsPaid_example =
    run-IsPaid small (machine small one_hash) name journalled tt payer small-IsLawful
      (machine-IsJson small one_hash) (codes "paid.jsonl") short_lines [] refl (true ∷ false ∷ [])
      fresh reads_nothing

send-IsSent_example :
    IsSent small
      (machine small one_hash)
      (paying small (pos 5) tt true)
      fresh
      (send small (machine small one_hash) payer true (some (pos 5)) tt fresh)
send-IsSent_example = send-IsSent small (machine small one_hash) payer true (some (pos 5)) tt fresh
