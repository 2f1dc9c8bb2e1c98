-- ===== src/Table32/Grown.antt =====
-- A new L2 table: the tables stay well formed, with the new frame owned by its entry of the root.
use mathlib.Core.Path.{subst}
use page_table_multiarch.Common.{
  ℕ, ◌+◌, ◌*◌, ◌%◌, ◌≤◌, ◌<◌, ◌≡◌, ◌≢◌, ◌⊎◌, ◌==◌, ==_iff, ==_refl, ==_ne, Bool-cases, refl, sym,
  ◌∙◌, inl, inr, none, some, true, if◌then◌else◌, arith,
}
use page_table_multiarch.Paging.{Platform, page_size_4k}
use page_table_multiarch.Table32.Defs.{Memory, entry_at, l1_size_pages}
use page_table_multiarch.Table32.Contract.{IsPlatform}
use page_table_multiarch.Table32.Answer.{first, top}
use page_table_multiarch.Table32.Placed.{Owners, IsLink, IsTable}
use page_table_multiarch.Table32.Fresh.{
  extended, frame_aligned, frame_apart, frame_here, not_live, still_live, root_kept,
}

module _ {S V B : Type 0} {e : Platform S V B} (a : IsPlatform e) (root : ℕ) where
  open e use {pte, handler}

  abbrev pub with_owner : Owners → (q i : ℕ) → Owners
  with_owner owner q i p = if p == q then some i else owner p

  module _ {owner : Owners} {w : Memory S} (t : IsTable a root owner w) (q v : ℕ)
      (got : (handler.alloc_frame w.os).0 ≡ some q)
      (unused : pte.is_unused (top e w.words root v) ≡ true) where
    -- What holds of the new frame and of all frames owned before holds of all frames owned.
    owned_by :
        (P : ℕ → Type 0)
        → P q
        → ((p i : ℕ) → owner p ≡ some i → P p)
        → (p i : ℕ) → with_owner owner q (first v) p ≡ some i
        → P p
    owned_by P new old p i here = elim (Bool-cases (p == q)) [
      | inl frame ↦ subst P (sym ((==_iff p q).0 frame)) new
      | inr other ↦ old p i (ground arith)
    ]

    linked_else :
        (i : ℕ)
        → i < 4096
        → i ≢ first v
        → IsLink a root ((extended a root w q (first v)).words (entry_at root i))
        → with_owner owner q
            (first v)
            (pte.paddr ((extended a root w q (first v)).words (entry_at root i)))
          ≡ some i
    linked_else i small differs = rw (root_kept a root t q v got unused i small differs) λ link.
        let here = t.linked i small link in
        rw (==_ne _ q (not_live a root t q v got unused _ (t.owned_live _ i here))) here

    pub extended-IsTable :
        IsTable a root (with_owner owner q (first v)) (extended a root w q (first v))
    extended-IsTable = record {
      root_aligned = t.root_aligned;
      root_live = λ k small. still_live a root t q v got unused _ (t.root_live k small);
      linked = λ i small link. elim (Bool-cases (i == first v)) [
        | inl here ↦
            let eq = (==_iff i (first v)).0 here in
            rw (eq, frame_here a root t q v got unused, ==_refl q) refl
        | inr there ↦ linked_else i small (λ same. ground arith) link
      ];
      owned_live =
          owned_by (λ p. a.live (handler.alloc_frame w.os).1 p ≡ true)
            (a.allocator.alloc_frame_live w.os q q got ∙ rw (==_refl q) refl)
            (λ p i here. still_live a root t q v got unused p (t.owned_live p i here));
      owned_aligned =
          owned_by (λ p. p % page_size_4k ≡ 0) (frame_aligned a root t q v got unused)
            t.owned_aligned;
      owned_apart =
          owned_by (λ p. (p + page_size_4k ≤ root) ⊎ (root + l1_size_pages * page_size_4k ≤ p))
            (frame_apart a root t q v got unused) t.owned_apart;
    }

  -- Where the allocator has no frame, only its state changes.
  pub failed-IsTable :
      {owner : Owners} {w : Memory S}
      → IsTable a root owner w
      → (handler.alloc_frame w.os).0 ≡ none
      → IsTable a root owner (record w { os = (handler.alloc_frame w.os).1 })
  failed-IsTable {owner} {w} t failed = record {
    root_aligned = t.root_aligned;
    root_live = λ k small. still _ (t.root_live k small);
    linked = t.linked;
    owned_live = λ q i here. still _ (t.owned_live q i here);
    owned_aligned = t.owned_aligned;
    owned_apart = t.owned_apart;
  }
    where
      still : (p : ℕ) → a.live w.os p ≡ true → a.live (handler.alloc_frame w.os).1 p ≡ true
      still p lives = a.allocator.alloc_frame_failed w.os p failed ∙ lives
