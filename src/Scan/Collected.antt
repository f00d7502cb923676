-- ===== src/Scan/Collected.antt =====
-- Which addresses a scan collects.
use mathlib.Core.List.{Memᴰ, Nodup, Pairwise, Permᴰ}
use mathlib.Core.List.Memᴰ
use mathlib.Core.List.Perm
use mathlib.Core.List.Permᴰ
use zts_airdrop.Base.{
  ℕ, ◌+◌, ◌≤◌, ◌<◌, ◌^◌, ◌≡◌, ◌∙◌, ◌⊎◌, inl, inr, Bool, List, [], ◌∷◌, ok, Bool-cases,
}
use zts_airdrop.Scan.{Feed, no_tally, note, take_momentums, result_of, scan}
use zts_airdrop.Scan.Seen.{
  concat, IsUser, note-self, note-keeps, note_sound, note-Nodup, collect, take_momentums-seen,
}
use zts_airdrop.Scan.Batches.{slice, IsFaithful, covered, scan_exact}
use zts_airdrop.ScanLog.{ScanResult}
use zts_airdrop.Sort.{sort_by, sort_by-perm, IsAscending, sort_by-IsAscending}
use zts_airdrop.Zenon.{Zenon, same_address}

mem-perm : {A : Type 0} {l r : List A} {x : A} → Permᴰ l r → Memᴰ x l → Memᴰ x r
mem-perm Permᴰ.nil m = m
mem-perm (Permᴰ.cons e p) (Memᴰ.head d) = Memᴰ.head (d ∙ e)
mem-perm (Permᴰ.cons e p) (Memᴰ.tail m) = Memᴰ.tail (mem-perm p m)
mem-perm (Permᴰ.swap e f) (Memᴰ.head d) = Memᴰ.tail (Memᴰ.head (d ∙ e))
mem-perm (Permᴰ.swap e f) (Memᴰ.tail (Memᴰ.head d)) = Memᴰ.head (d ∙ f)
mem-perm (Permᴰ.swap e f) (Memᴰ.tail (Memᴰ.tail m)) = Memᴰ.tail (Memᴰ.tail m)
mem-perm (Permᴰ.trans p q) m = mem-perm q (mem-perm p m)

module _ (Z : Zenon) where
  collect-Nodup : (l s : List Z.Address) → Nodup s → Nodup (collect Z l s)
  unfolding collect
  collect-Nodup [] s h = h
  collect-Nodup (a ∷ rest) s h = elim (Bool-cases (same_address Z a Z.zero_address)) [
    | inl e ↦ rw e (collect-Nodup rest s h)
    | inr e ↦ elim (Bool-cases (Z.is_embedded a)) [
      | inl f ↦ rw (e, f) (collect-Nodup rest s h)
      | inr f ↦ rw (e, f) (collect-Nodup rest (note Z a s) (note-Nodup Z a s h))
    ]
  ]

  collect-keeps : (l s : List Z.Address) {x : Z.Address} → Memᴰ x s → Memᴰ x (collect Z l s)
  unfolding collect
  collect-keeps [] s m = m
  collect-keeps (a ∷ rest) s m = elim (Bool-cases (same_address Z a Z.zero_address)) [
    | inl e ↦ rw e (collect-keeps rest s m)
    | inr e ↦ elim (Bool-cases (Z.is_embedded a)) [
      | inl f ↦ rw (e, f) (collect-keeps rest s m)
      | inr f ↦ rw (e, f) (collect-keeps rest (note Z a s) (note-keeps Z a s m))
    ]
  ]

  -- an address is collected if it occurs and is a user's
  collect_complete :
      (l s : List Z.Address) {x : Z.Address} → Memᴰ x l → IsUser Z x → Memᴰ x (collect Z l s)
  unfolding collect
  collect_complete [] s m h = elim m [ ]
  collect_complete (a ∷ rest) s {x} (Memᴰ.head e) h =
      rw (rw e at h.0, rw e at h.1)
        (collect-keeps rest (note Z a s) (Memᴰ.cast e (note-self Z a s)))
  collect_complete (a ∷ rest) s (Memᴰ.tail m) h = collect_complete rest _ m h

  collect_sound :
      (l s : List Z.Address) {x : Z.Address}
      → Memᴰ x (collect Z l s)
      → Memᴰ x s ⊎ (Memᴰ x l × IsUser Z x)
  unfolding collect
  collect_sound [] s m = inl m
  collect_sound (a ∷ rest) s {x} m = elim (Bool-cases (same_address Z a Z.zero_address)) [
    | inl e ↦ later (collect_sound rest s (rw e at m))
    | inr e ↦ elim (Bool-cases (Z.is_embedded a)) [
      | inl f ↦ later (collect_sound rest s (rw (e, f) at m))
      | inr f ↦ elim (collect_sound rest (note Z a s) (rw (e, f) at m)) [
        | inl noted ↦ elim (note_sound Z a s noted) [
          | inl same ↦ inr (Memᴰ.head same, (rw same e, rw same f))
          | inr old ↦ inl old
        ]
        | inr (found, user) ↦ inr (Memᴰ.tail found, user)
      ]
    ]
  ]
    where
      later : Memᴰ x s ⊎ (Memᴰ x rest × IsUser Z x) → Memᴰ x s ⊎ (Memᴰ x (a ∷ rest) × IsUser Z x)
      later (inl old) = inl old
      later (inr (found, user)) = inr (Memᴰ.tail found, user)

  -- the addresses named in the blocks of momentums, each as often as it is
  abbrev pub acting : List (List (List Z.Address)) → List Z.Address
  acting l = concat (concat l)

  -- a list of addresses is in the order of their text, has none twice, and holds exactly the
  -- users among `named`
  pub record IsCollection (named addresses : List Z.Address) : Type 0 where
    pub ascending : IsAscending Z.address_string addresses
    pub distinct : Nodup addresses
    pub only : (x : Z.Address) → Memᴰ x addresses → Memᴰ x named × IsUser Z x
    pub every : (x : Z.Address) → Memᴰ x named → IsUser Z x → Memᴰ x addresses

  collected :
      (named : List Z.Address) → IsCollection named (sort_by Z.address_string (collect Z named []))
  collected named =
      let sorted = sort_by-perm Z.address_string (collect Z named []) in
      record {
        ascending = sort_by-IsAscending Z.address_string (collect Z named []);
        distinct = Perm.nodup ∣ Permᴰ.symm sorted ∣₁ (collect-Nodup named [] Pairwise.nil);
        only = λ x m. elim (collect_sound named [] (mem-perm sorted m)) [
          | inl none_before ↦ absurd (Memᴰ.not-nil none_before)
          | inr found ↦ found
        ];
        every = λ x m h. mem-perm (Permᴰ.symm sorted) (collect_complete named [] m h);
      }

  module _ {S : Type 0} (F : Feed Z S) (include_recipients : Bool) where
    -- Over a node that answers every call for at most a batch with the part of the asked
    -- momentums that it has, and while the context does not end, a Scan of a range from height
    -- 1 on and below 2 ^ 64 - 1 ends without an error, and its addresses are exactly the users
    -- (neither the zero address nor a contract) that occur in the momentums of the range that
    -- the node has, each once and in the order of their text.
    pub scan_collects :
        (chain : ℕ → List (List Z.Address)) (tip : ℕ)
        → IsFaithful Z F include_recipients chain tip
        → (from to : ℕ) (s : S) → 1 ≤ from
        → from ≤ to
        → to + 1 < 2 ^ 64
        → (r : ScanResult Z) × ((scan Z F include_recipients from to s).0 ≡ ok r)
          × IsCollection (acting (slice Z chain from (covered to tip from))) r.addresses
    unfolding result_of
    scan_collects chain tip faithful from to s h1 h2 h3 =
        let (elapsed, e) =
          scan_exact Z F include_recipients chain tip faithful from to s h1 h2 h3 in
        let walked = slice Z chain from (covered to tip from) in
        (
          result_of Z F include_recipients from to elapsed (take_momentums Z walked (no_tally Z)),
          e,
          rw (take_momentums-seen Z walked (no_tally Z)) (collected (acting walked)),
        )
