-- ===== src/Examples/Scan.antt =====
-- A scan of a chain whose momentum at height h holds one block, of the account h.
use mathlib.Core.List.{Permᴰ}
use zts_airdrop.Base.{
  ℕ, zero, suc, ◌+◌, ◌-◌, ◌≤◌, ◌<◌, ◌≡◌, refl, ap, ◌⊎◌, ◌∙◌, none, false, List, [], ◌∷◌, map, Bytes,
  Result, ok, err, errorf, pos, codes, arith,
}
use zts_airdrop.Effect.{next_ok}
use zts_airdrop.Examples.Chain.{chain, chain-IsLawful}
use zts_airdrop.Examples.Machine.{machine}
use zts_airdrop.Ledger.{Momentum}
use zts_airdrop.Main.Shell.{world_feed}
use zts_airdrop.Rpc.{
  at_most, momentums_by_height, call, call_ignoring, post, read_reply, read_envelope, has_result,
}
use zts_airdrop.Replay.{replay_list, source_of}
use zts_airdrop.Replay.Approved.{replay_list_approved, replay_list-set_filter}
use zts_airdrop.Scan.{
  Range, range_at, range_start, range_end, header_blocks, fetch, scan, result_of, take_momentums,
  no_tally,
}
use zts_airdrop.Scan.Batches.{lesser, covered, slice, IsFaithful, scan_exact}
use zts_airdrop.Scan.Bounds.{IsAsked, range_at_sound}
use zts_airdrop.Scan.Collected.{IsCollection, acting, scan_collects}
use zts_airdrop.Text.{same_text}
use zts_airdrop.World.{Param, number, text, new_block, plasma_query, Reply, reply, Host, World}
use zts_airdrop.Zenon.{Zenon}
use zts_airdrop.ScanLog.{
  ScanLog, ScanResult, ScanOptions, ScanTip, address_digest, address_strings, digest_text,
  new_scan_log, set_filter,
}
use zts_airdrop.ScanLog.Digest.{IsCollision, address_digest_of_perm, perm_of_address_digest}

abbrev momentum_at : ℕ → Momentum chain
momentum_at h = record {
  version = 1;
  chain_identifier = 1;
  hash = h;
  previous_hash = h - 1;
  height = h;
  timestamp = pos h;
  content = record { address = h; hash = h; height = 1 } ∷ [];
  producer = 1;
}

abbrev momentums_from : ℕ → ℕ → List (Momentum chain)
momentums_from h zero = []
momentums_from h (suc n) = momentum_at h ∷ momentums_from (h + 1) n

-- The node, behind the program's client: its tip is at 3000, and the account 900 is a contract.
-- A page is answered by its height and its count, as which the momentums are decoded.
abbrev page : {Z : Zenon} → List (Param Z) → Reply
page (number h ∷ number c ∷ rest) = reply 200 (0 ∷ h ∷ c ∷ [])
page (number h ∷ text s ∷ rest) = reply 500 []
page (number h ∷ new_block b ∷ rest) = reply 500 []
page (number h ∷ plasma_query a n b ∷ rest) = reply 500 []
page (number h ∷ []) = reply 500 []
page (text s ∷ rest) = reply 500 []
page (new_block b ∷ rest) = reply 500 []
page (plasma_query a n b ∷ rest) = reply 500 []
page [] = reply 500 []

abbrev read_page : Bytes → Result (List (Momentum chain))
read_page (z ∷ h ∷ c ∷ rest) = ok (momentums_from h (lesser c (3000 + 1 - h)))
read_page (z ∷ h ∷ []) = err (errorf "bad json" [])
read_page (z ∷ []) = err (errorf "bad json" [])
read_page [] = err (errorf "bad json" [])

abbrev host : Host chain
host = record (machine chain (λ h. h)) {
  exchange = λ r n. (page {Z = chain} r.params, n);
  decode_momentums = read_page;
}

abbrev client : World chain host
client = record { net = 0; id = 0; posted = []; last_hash = 0; file = none }

abbrev blocks_at : ℕ → List (List ℕ)
blocks_at h = (h ∷ []) ∷ []

momentums_slice :
    (h n : ℕ) → map (header_blocks chain) (momentums_from h n) ≡ slice chain blocks_at h n
unfolding slice
momentums_slice h zero = refl
momentums_slice h (suc n) = ap (◌∷◌ (blocks_at h)) (momentums_slice (h + 1) n)

at_most_small : (c : ℕ) → c ≤ 1024 → at_most chain host c ≡ c
at_most_small c h = ground arith

one_page :
    (h c : ℕ) (w : World chain host)
    → (momentums_by_height chain host h c w).0
      ≡ ok (momentums_from h (lesser (at_most chain host c) (3000 + 1 - h)))
unfolding momentums_by_height call call_ignoring post read_reply read_envelope has_result same_text
one_page h c w = refl

client_fetches :
    (h c : ℕ) (w : World chain host)
    → c ≤ 1024
    → (fetch chain (world_feed chain host) false h c w).0
      ≡ ok (slice chain blocks_at h (lesser c (3000 + 1 - h)))
unfolding fetch
client_fetches h c w small =
    ap (λ r. r.0) (next_ok _ (momentums_by_height chain host h c w) (one_page h c w))
    ∙ rw (at_most_small c small) (ap ok (momentums_slice h (lesser c (3000 + 1 - h))))

client-IsFaithful : IsFaithful chain (world_feed chain host) false blocks_at 3000
client-IsFaithful = record {
  answers = λ h c w _ small. client_fetches h c w small;
  alive = λ w. refl;
}

scan_exact_example :
    (elapsed : ℕ) × ((scan chain (world_feed chain host) false 899 3100 client).0
      ≡ ok (
          result_of chain (world_feed chain host) false 899 3100 elapsed (
            take_momentums chain
              (slice chain blocks_at 899 (covered 3100 3000 899))
              (no_tally chain))))
scan_exact_example =
    scan_exact chain (world_feed chain host) false blocks_at 3000 client-IsFaithful 899 3100 client
      (omega arith) (omega arith) (omega arith)

scan_collects_example :
    (r : ScanResult chain) × ((scan chain (world_feed chain host) false 899 3100 client).0 ≡ ok r)
    × IsCollection chain
        (acting chain (slice chain blocks_at 899 (covered 3100 3000 899)))
        r.addresses
scan_collects_example =
    scan_collects chain (world_feed chain host) false blocks_at 3000 client-IsFaithful 899 3100
      client (omega arith) (omega arith) (omega arith)

last_five : range_at 901 0 5 0 ≡ ok (record { from = 897; to = 901 })
unfolding range_at range_start range_end
last_five = refl

range_at_sound_example :
    let r : Range = record { from = 897; to = 901 } in
    let unset : ℕ = 0 in
    (1 ≤ r.from)
    × (r.from ≤ r.to)
    × (r.to ≤ 901)
    × ((unset ≡ 0 → r.to ≡ 901) × (0 < unset → r.to ≡ unset))
    × IsAsked 0 5 r
range_at_sound_example = range_at_sound 901 0 5 0 last_five

address_digest_of_perm_example :
    address_digest chain (5 ∷ 7 ∷ 9 ∷ []) ≡ address_digest chain (7 ∷ 5 ∷ 9 ∷ [])
address_digest_of_perm_example =
    address_digest_of_perm chain {a = 5 ∷ 7 ∷ 9 ∷ []} {b = 7 ∷ 5 ∷ 9 ∷ []} (Permᴰ.swap refl refl)

swapped : address_digest chain (5 ∷ 7 ∷ []) ≡ address_digest chain (7 ∷ 5 ∷ [])
swapped = address_digest_of_perm chain {a = 5 ∷ 7 ∷ []} {b = 7 ∷ 5 ∷ []} (Permᴰ.swap refl refl)

perm_of_address_digest_example :
    Permᴰ {A = ℕ} (5 ∷ 7 ∷ []) (7 ∷ 5 ∷ [])
    ⊎ IsCollision chain
        (digest_text (address_strings chain (5 ∷ 7 ∷ [])))
        (digest_text (address_strings chain (7 ∷ 5 ∷ [])))
perm_of_address_digest_example =
    perm_of_address_digest chain chain-IsLawful (5 ∷ 7 ∷ []) (7 ∷ 5 ∷ []) swapped

abbrev found : ScanResult chain
found = record {
  from_height = 1;
  to_height = 9;
  momentums = 9;
  blocks = 9;
  contracts = 0;
  addresses = 5 ∷ 7 ∷ 9 ∷ [];
  elapsed = 3;
}

abbrev tip : ScanTip
tip = record { height = 20; hash = codes "20" }

abbrev light : ScanOptions
light = record { include_recipients = false }

abbrev pub written : ScanLog
written =
    new_scan_log chain (codes "dev") (codes "http://localhost:35997") 1 tip (codes "-last 9") light
      found 100

replay_list-set_filter_example :
    replay_list chain (set_filter chain (codes "9") [] (5 ∷ 7 ∷ []) written)
    ≡ ok (record {
      addresses = 5 ∷ 7 ∷ [];
      label = codes "filtered recipients";
      digest = address_digest chain (5 ∷ 7 ∷ []);
    })
replay_list-set_filter_example =
    replay_list-set_filter chain chain-IsLawful (codes "9") [] 5 (7 ∷ []) written

recorded_digest :
    (source_of (set_filter chain (codes "9") [] (5 ∷ 7 ∷ []) written)).digest
    ≡ address_digest chain (7 ∷ 5 ∷ [])
unfolding source_of set_filter address_strings
recorded_digest = swapped

replay_list_approved_example :
    Permᴰ {A = ℕ} (5 ∷ 7 ∷ []) (7 ∷ 5 ∷ [])
    ⊎ IsCollision chain
        (digest_text (address_strings chain (5 ∷ 7 ∷ [])))
        (digest_text (address_strings chain (7 ∷ 5 ∷ [])))
replay_list_approved_example =
    replay_list_approved chain chain-IsLawful (set_filter chain (codes "9") [] (5 ∷ 7 ∷ []) written)
      (7 ∷ 5 ∷ []) recorded_digest replay_list-set_filter_example
