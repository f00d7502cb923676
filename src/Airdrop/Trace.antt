-- ===== src/Airdrop/Trace.antt =====
-- Which payments a run puts on the wire, and which of them the journal holds afterwards.
use mathlib.Core.List.{Sublistᴰ, map-append}
use mathlib.Core.List.Sublistᴰ
use zts_airdrop.Airdrop.{Desk, Progress, journal_error}
use zts_airdrop.Base.{
  ℕ, ◌+◌, ◌≡◌, refl, ap, ◌∙◌, ◌⊎◌, inl, inr, List, [], ◌∷◌, ◌++◌, map, append-nil, append_assoc,
  none, some, Err, ok, arith, length, length-append,
}
use zts_airdrop.Journal.{PaidMap, find}
use zts_airdrop.Zenon.{Zenon}

module _ (Z : Zenon) where
  -- the recipients that the map does not name, in their order
  unfoldable pub unpaid : PaidMap Z → List Z.Address → List Z.Address
  unpaid m [] = []
  unpaid m (a ∷ rest) =
      let others = unpaid m rest in elim (find Z a m) [ none ↦ a ∷ others | some h ↦ others ]

  module _ {S : Type 0} (D : Desk Z S) where
    -- What can be seen of the state: the payments posted, the earliest first, and the payments
    -- that the journal holds. A send posts its payment or nothing, and posts it if it succeeds;
    -- a payment recorded without an error is held after those held before; all else leaves
    -- both alone.
    pub record Watch : Type 1 where
      pub Item : Type 0
      pub item : Z.Address → Item
      pub posts : S → List Item
      pub Holds : S → List (Z.Address × Z.Hash) → Type 0
      pub is_done-posts : (s : S) → posts (D.is_done s).1 ≡ posts s
      pub pause-posts : (s : S) → posts (D.pause s).1 ≡ posts s
      pub record-posts :
          (n : ℕ) (a : Z.Address) (h : Z.Hash) (s : S)
          → posts (D.record_payment n a h s).1 ≡ posts s
      pub send-posts :
          (a : Z.Address) (s : S)
          → (posts (D.send a s).1 ≡ posts s) ⊎ (posts (D.send a s).1 ≡ posts s ++ (item a ∷ []))
      pub send_ok-posts :
          (a : Z.Address) (h : Z.Hash) (s : S)
          → (D.send a s).0 ≡ ok h
          → posts (D.send a s).1 ≡ posts s ++ (item a ∷ [])
      pub is_done-Holds :
          (s : S) (l : List (Z.Address × Z.Hash)) → Holds s l → Holds (D.is_done s).1 l
      pub pause-Holds : (s : S) (l : List (Z.Address × Z.Hash)) → Holds s l → Holds (D.pause s).1 l
      pub send-Holds :
          (a : Z.Address) (s : S) (l : List (Z.Address × Z.Hash))
          → Holds s l
          → Holds (D.send a s).1 l
      pub record-Holds :
          (n : ℕ) (a : Z.Address) (h : Z.Hash) (s : S) (l : List (Z.Address × Z.Hash))
          → (D.record_payment n a h s).0 ≡ ok tt
          → Holds s l
          → Holds (D.record_payment n a h s).1 (l ++ ((a, h) ∷ []))

    module _ (W : Watch) where
      open W use {Item, item, posts, Holds}

      -- the journal holds `more` behind what it held before
      abbrev pub Keeps : S → S → List (Z.Address × Z.Hash) → Type 0
      Keeps s t more = (l : List (Z.Address × Z.Hash)) → Holds s l → Holds t (l ++ more)

      -- the run was stopped by a journal that could not be written
      abbrev pub IsJournalFailure : Progress Z → Type 0
      IsJournalFailure p =
          (a : Z.Address) × (h : Z.Hash) × (e : Err) × (p.halt ≡ some (journal_error Z a h e))

      -- What a stretch of the loop over `candidates` did: it tried some of them in their
      -- order, posted a payment to each of those, and recorded the ones that it counts as sent.
      pub record IsTraced (candidates : List Z.Address) (p p' : Progress Z) (s s' : S)
          : Type 0 where
        pub tried : List Z.Address
        pub recorded : List (Z.Address × Z.Hash)
        pub in_order : Sublistᴰ tried candidates
        pub recorded_tried : Sublistᴰ (map (λ (x : Z.Address × Z.Hash). x.0) recorded) tried
        pub posted : posts s' ≡ posts s ++ map item tried
        pub counted : p'.report.sent ≡ p.report.sent + length recorded
        pub held : IsJournalFailure p' ⊎ Keeps s s' recorded

      module _ {p p' : Progress Z} {s s' : S} where
        -- nothing posted
        pub idle :
            (candidates : List Z.Address)
            → posts s' ≡ posts s
            → p'.report.sent ≡ p.report.sent
            → ((l : List (Z.Address × Z.Hash)) → Holds s l → Holds s' l)
            → IsTraced candidates p p' s s'
        idle candidates e c k = record {
          tried = [];
          recorded = [];
          in_order = Sublistᴰ.nil-sublist candidates;
          recorded_tried = Sublistᴰ.slnil;
          posted = rw append-nil e;
          counted = omega arith;
          held = inr (λ l h. rw append-nil (k l h));
        }

        -- a payment posted, and not counted as sent
        pub uncounted :
            (a : Z.Address)
            → posts s' ≡ posts s ++ (item a ∷ [])
            → p'.report.sent ≡ p.report.sent
            → IsJournalFailure p' ⊎ ((l : List (Z.Address × Z.Hash)) → Holds s l → Holds s' l)
            → IsTraced (a ∷ []) p p' s s'
        uncounted a e c k = record {
          tried = a ∷ [];
          recorded = [];
          in_order = Sublistᴰ.refl (a ∷ []);
          recorded_tried = Sublistᴰ.nil-sublist (a ∷ []);
          posted = e;
          counted = omega arith;
          held = elim k [ inl f ↦ inl f | inr m ↦ inr (λ l h. rw append-nil (m l h)) ];
        }

        -- a payment posted, recorded and counted
        pub settled :
            (a : Z.Address) (hash : Z.Hash)
            → posts s' ≡ posts s ++ (item a ∷ [])
            → p'.report.sent ≡ p.report.sent + 1
            → Keeps s s' ((a, hash) ∷ [])
            → IsTraced (a ∷ []) p p' s s'
        settled a hash e c k = record {
          tried = a ∷ [];
          recorded = (a, hash) ∷ [];
          in_order = Sublistᴰ.refl (a ∷ []);
          recorded_tried = Sublistᴰ.refl (a ∷ []);
          posted = e;
          counted = c;
          held = inr k;
        }

      not_stopped : (q : Progress Z) → q.halt ≡ none → IsJournalFailure q → ⊥
      not_stopped q going (a, h, e, x) = cc

      -- one stretch after another that did not end the run
      pub joined :
          (first second : List Z.Address) {p q r : Progress Z} {s t u : S}
          → q.halt ≡ none
          → IsTraced first p q s t
          → IsTraced second q r t u
          → IsTraced (first ++ second) p r s u
      joined first second {q} going x y = record {
        tried = x.tried ++ y.tried;
        recorded = x.recorded ++ y.recorded;
        in_order = Sublistᴰ.append x.in_order y.in_order;
        recorded_tried = rw map-append (Sublistᴰ.append x.recorded_tried y.recorded_tried);
        posted =
            y.posted ∙ ap (λ l. l ++ map item y.tried) x.posted ∙ rw (map-append, append_assoc);
        counted = omega (arith, x.counted, y.counted, length-append {0} x.recorded y.recorded);
        held = elim y.held [
          | inl f ↦ inl f
          | inr more ↦ elim x.held [
            | inl f ↦ absurd (not_stopped q going f)
            | inr before ↦ inr (λ l h. rw (← append_assoc) (more (l ++ x.recorded) (before l h)))
          ]
        ];
      }

      -- a stretch that began by doing nothing that is watched
      pub from_before :
          (candidates : List Z.Address) {p q : Progress Z} {s t u : S}
          → posts t ≡ posts s
          → ((l : List (Z.Address × Z.Hash)) → Holds s l → Holds t l)
          → IsTraced candidates p q t u
          → IsTraced candidates p q s u
      from_before candidates e k x = record {
        tried = x.tried;
        recorded = x.recorded;
        in_order = x.in_order;
        recorded_tried = x.recorded_tried;
        posted = x.posted ∙ ap (λ l. l ++ map item x.tried) e;
        counted = x.counted;
        held = elim x.held [ inl f ↦ inl f | inr more ↦ inr (λ l h. more l (k l h)) ];
      }

      -- the candidates behind those that were looked at do not matter
      pub widened :
          (first second : List Z.Address) {p q : Progress Z} {s t : S}
          → IsTraced first p q s t
          → IsTraced (first ++ second) p q s t
      widened first second x = record {
        tried = x.tried;
        recorded = x.recorded;
        in_order = rw append-nil at (Sublistᴰ.append x.in_order (Sublistᴰ.nil-sublist second));
        recorded_tried = x.recorded_tried;
        posted = x.posted;
        counted = x.counted;
        held = x.held;
      }

      pub nothing_done : (p : Progress Z) (s : S) → IsTraced [] p p s s
      nothing_done p s = idle [] refl refl (λ l h. h)

  pub unpaid_one : (m : PaidMap Z) (a : Z.Address) → find Z a m ≡ none → unpaid m (a ∷ []) ≡ a ∷ []
  unfolding unpaid
  unpaid_one m a e = rw (e, unpaid)

  pub unpaid-cons :
      (m : PaidMap Z) (a : Z.Address) (rest : List Z.Address)
      → unpaid m (a ∷ rest) ≡ unpaid m (a ∷ []) ++ unpaid m rest
  unfolding unpaid
  unpaid-cons m a rest = ground arith
