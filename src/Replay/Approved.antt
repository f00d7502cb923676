-- ===== src/Replay/Approved.antt =====
-- A replay pays the list that the log was written for.
use mathlib.Core.List.{Permᴰ}
use zts_airdrop.Base.{
  ◌≡◌, refl, ◌∙◌, ◌⊎◌, inl, inr, false, List, [], ◌∷◌, Bytes, codes, ok, arith, is_empty,
  Bool-cases, Result-cases,
}
use zts_airdrop.Replay.{
  Source, source_of, Replayed, parse_list, check_digest, replay_source, replay_list,
}
use zts_airdrop.Text.Laws.{same_text_refl, same_text_sound}
use zts_airdrop.ScanLog.{ScanLog, digest_text, address_strings, address_digest, set_filter}
use zts_airdrop.ScanLog.Digest.{IsCollision, perm_of_address_digest}
use zts_airdrop.Zenon.{Zenon, IsLawful}

module _ (Z : Zenon) where
  -- what an accepted list satisfies
  pub record IsAccepted (src : Source) (r : Replayed Z) : Type 0 where
    pub nonempty : is_empty src.texts ≡ false
    pub parsed : parse_list Z src.texts ≡ ok r.addresses
    pub digest_same : r.digest ≡ src.digest
    pub verified : address_digest Z r.addresses ≡ src.digest

  check_digest_sound :
      (src : Source) (addrs : List Z.Address) {r : Replayed Z}
      → check_digest Z src addrs ≡ ok r
      → (r.addresses ≡ addrs) × (r.digest ≡ src.digest) × (address_digest Z addrs ≡ src.digest)
  unfolding check_digest
  check_digest_sound src addrs {r} e =
      ground (arith, same_text_sound (address_digest Z addrs) src.digest)

  -- `replayList` accepts a list only if it is not empty, each text parses, and the list hashes
  -- to the digest that stands beside it.
  replay_source_sound :
      (src : Source) {r : Replayed Z} → replay_source Z src ≡ ok r → IsAccepted src r
  unfolding replay_source
  replay_source_sound src {r} e = elim (Bool-cases (is_empty src.texts)) [
    | inl h ↦ absurd (ground arith)
    | inr h ↦ elim (Result-cases (parse_list Z src.texts)) [
      | inl (addrs, p) ↦
          let (same, digest, verified) =
            check_digest_sound src addrs {r = r} (rw p at (rw h at e)) in
          record {
            nonempty = h;
            parsed = rw same p;
            digest_same = digest;
            verified = rw same verified;
          }
      | inr (x, p) ↦ absurd (ground arith)
    ]
  ]

  -- If the digest beside the list that a log is replayed with is that of an approved list, and
  -- replayList accepts the log, then the addresses it returns are the approved ones, each as
  -- often, or else the two texts that were hashed are a SHA-256 collision. It assumes the
  -- documented behaviour of address texts, IsLawful.
  pub replay_list_approved :
      IsLawful Z
      → (l : ScanLog) (approved : List Z.Address) {r : Replayed Z}
      → (source_of l).digest ≡ address_digest Z approved
      → replay_list Z l ≡ ok r
      → Permᴰ r.addresses approved
        ⊎ IsCollision Z
            (digest_text (address_strings Z r.addresses))
            (digest_text (address_strings Z approved))
  unfolding replay_list
  replay_list_approved lawful l approved {r} same e =
      let h = replay_source_sound (source_of l) e in
      perm_of_address_digest Z lawful r.addresses approved (h.verified ∙ same)

  module _ (lawful : IsLawful Z) where
    parse_list-strings : (l : List Z.Address) → parse_list Z (address_strings Z l) ≡ ok l
    unfolding parse_list address_strings
    parse_list-strings [] = refl
    parse_list-strings (a ∷ l) =
        rw (lawful.parse-address_string a, parse_list, parse_list-strings l)

    replay_source-strings :
        (addrs : List Z.Address) (label : Bytes)
        → is_empty (address_strings Z addrs) ≡ false
        → replay_source Z (record {
          texts = address_strings Z addrs;
          digest = address_digest Z addrs;
          label = label;
        })
          ≡ ok (record { addresses = addrs; label = label; digest = address_digest Z addrs })
    unfolding replay_source check_digest
    replay_source-strings addrs label h =
        rw h (rw (parse_list-strings addrs) (rw (same_text_refl (address_digest Z addrs))))

    nonempty_strings :
        (a : Z.Address) (rest : List Z.Address) → is_empty (address_strings Z (a ∷ rest)) ≡ false
    unfolding address_strings
    nonempty_strings a rest = refl

    -- A log on which SetFilter recorded at least one recipient is accepted by replayList,
    -- which returns these recipients in their order. It assumes the documented behaviour of
    -- address texts, IsLawful.
    pub replay_list-set_filter :
        (self min_holding : Bytes) (a : Z.Address) (rest : List Z.Address) (l : ScanLog)
        → replay_list Z (set_filter Z self min_holding (a ∷ rest) l)
          ≡ ok (record {
            addresses = a ∷ rest;
            label = codes "filtered recipients";
            digest = address_digest Z (a ∷ rest);
          })
    unfolding replay_list set_filter source_of
    replay_list-set_filter self min_holding a rest l =
        rw (nonempty_strings a rest)
          (replay_source-strings (a ∷ rest) (codes "filtered recipients") (nonempty_strings a rest))
