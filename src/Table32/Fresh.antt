-- ===== src/Table32/Fresh.antt =====
-- A new L2 table: the root gets a link to a frame of zeros, and no address has another answer.
use page_table_multiarch.Common.{
  ℕ, ◌+◌, ◌*◌, ◌%◌, ◌^◌, ◌≤◌, ◌<◌, ◌≡◌, ◌≢◌, ◌⊎◌, ◌==◌, ==_iff, Bool-cases, refl, sym, ap, ◌∙◌, inl,
  inr, none, some, true, arith,
}
use native.Mathlib.Decide.{dec_le}
use page_table_multiarch.Paging.{size_4k, Platform, page_size_4k}
use page_table_multiarch.Table32.Defs.{Memory, entry_at, store, zeroed, l1_align, l1_size_pages}
use page_table_multiarch.Table32.Contract.{IsPlatform}
use page_table_multiarch.Table32.Answer.{first, second, top, below, answer}
use page_table_multiarch.Table32.Placed.{
  Owners, IsLink, IsTable, IsPlace, section, small_page, first_small, second_small, store_here,
  store_else, answer-agree, answer-place, mapped_by,
}
use page_table_multiarch.Table32.Written.{below_apart, link-owner}

zeroed_else : (words : ℕ → ℕ) (q n p : ℕ) → (p < q) ⊎ (q + n ≤ p) → zeroed words q n p ≡ words p
zeroed_else words q n p (inl before) = ground arith
zeroed_else words q n p (inr after) = ground arith

pub zeroed_here : (words : ℕ → ℕ) (q n p : ℕ) → q ≤ p → p < q + n → zeroed words q n p ≡ 0
zeroed_here words q n p low high = ground arith

-- A frame that is none of the four of a root lies before the root or behind it.
block_apart :
    (q root : ℕ)
    → q % page_size_4k ≡ 0
    → root % l1_align ≡ 0
    → ((k : ℕ) → k < l1_size_pages → root + page_size_4k * k ≢ q)
    → (q + page_size_4k ≤ root) ⊎ (root + l1_size_pages * page_size_4k ≤ q)
block_apart q root aligned aligned' apart =
    let n0 = apart 0 (omega arith) in
    let n1 = apart 1 (omega arith) in
    let n2 = apart 2 (omega arith) in
    let n3 = apart 3 (omega arith) in
    elim (dec_le (q + page_size_4k) root) [
      | yes before ↦ inl before
      | no after ↦ inr (omega (arith, n0, n1, n2, n3))
    ]

module _ {S V B : Type 0} {e : Platform S V B} (a : IsPlatform e) (root : ℕ) where
  open e use {pte, handler}

  -- The memory once the frame `q` is linked at the entry `i` of the root.
  abbrev pub extended : Memory S → (q i : ℕ) → Memory S
  extended w q i = record w {
    os = (handler.alloc_frame w.os).1;
    words = store (zeroed w.words q page_size_4k) (entry_at root i) (pte.new_table q);
  }

  module _ {owner : Owners} {w : Memory S} (t : IsTable a root owner w) (q v : ℕ)
      (got : (handler.alloc_frame w.os).0 ≡ some q)
      (unused : pte.is_unused (top e w.words root v) ≡ true) where
    pub frame_aligned : q % page_size_4k ≡ 0
    frame_aligned = let f = (a.allocator.alloc_frame_is_frame w.os q got).fits in omega (arith, f)

    frame_small : q < 2 ^ 32
    frame_small = let f = (a.allocator.alloc_frame_is_frame w.os q got).fits in omega (arith, f)

    pub not_live : (p : ℕ) → a.live w.os p ≡ true → p ≢ q
    not_live p lives same =
        cc (ap (a.live w.os) same, lives, a.allocator.alloc_frame_was_free w.os q got)

    pub frame_apart : (q + page_size_4k ≤ root) ⊎ (root + l1_size_pages * page_size_4k ≤ q)
    frame_apart =
        block_apart q root frame_aligned t.root_aligned
          λ k small. not_live (root + page_size_4k * k) (t.root_live k small)

    pub still_live : (p : ℕ) → a.live w.os p ≡ true → a.live (handler.alloc_frame w.os).1 p ≡ true
    still_live p lives = a.allocator.alloc_frame_live w.os q p got ∙ ground arith

    outside :
        (q' j : ℕ)
        → q' ≢ q
        → q' % page_size_4k ≡ 0
        → j < 256
        → (entry_at q' j < q) ⊎ (q + page_size_4k ≤ entry_at q' j)
    outside q' j differs aligned small =
        let f = frame_aligned in
        elim (dec_le (q + page_size_4k) (entry_at q' j)) [
          | yes after ↦ inr after
          | no before ↦ inl (omega (arith, f, differs))
        ]

    stored_else :
        (p : ℕ)
        → p ≢ entry_at root (first v)
        → (extended w q (first v)).words p ≡ zeroed w.words q page_size_4k p
    stored_else p apart =
        store_else (zeroed w.words q page_size_4k) (entry_at root (first v)) (pte.new_table q) p
          apart

    new_else : (j : ℕ) → j < 256 → entry_at q j ≢ entry_at root (first v)
    new_else j small same =
        let f = first_small v in
        elim frame_apart [
          | inl before ↦ absurd (omega (arith, f, same))
          | inr after ↦ absurd (omega (arith, f, same))
        ]

    -- The other entries of the root stay.
    pub root_kept :
        (i : ℕ)
        → i < 4096
        → i ≢ first v
        → (extended w q (first v)).words (entry_at root i) ≡ w.words (entry_at root i)
    root_kept i small differs =
        stored_else (entry_at root i) (λ same. differs (omega (arith, same)))
        ∙ zeroed_else w.words q page_size_4k _
            (elim frame_apart [ inl before ↦ inr (omega arith) | inr after ↦ inl (omega arith) ])

    -- The other L2 tables stay.
    table_kept :
        (q' i j : ℕ)
        → owner q' ≡ some i
        → j < 256
        → (extended w q (first v)).words (entry_at q' j) ≡ w.words (entry_at q' j)
    table_kept q' i j here small =
        stored_else (entry_at q' j)
          (below_apart a root t q' i j (first v) here small (first_small v))
        ∙ zeroed_else w.words q page_size_4k _
            (outside q' j (not_live q' (t.owned_live q' i here)) (t.owned_aligned q' i here) small)

    linked_here : (extended w q (first v)).words (entry_at root (first v)) ≡ pte.new_table q
    linked_here = store_here (zeroed w.words q page_size_4k) _ _

    empty_there : (j : ℕ) → j < 256 → (extended w q (first v)).words (entry_at q j) ≡ 0
    empty_there j small =
        stored_else (entry_at q j) (new_else j small)
        ∙ zeroed_here w.words q page_size_4k _ (omega arith) (omega arith)

    new-IsLink : IsLink a root ((extended w q (first v)).words (entry_at root (first v)))
    new-IsLink = rw linked_here (record {
      in_use = a.lawful.is_unused-new_table q;
      no_section = a.lawful.is_huge-new_table q;
    })

    pub frame_here : pte.paddr ((extended w q (first v)).words (entry_at root (first v))) ≡ q
    frame_here = rw linked_here (a.lawful.paddr-new_table q frame_aligned frame_small)

    -- The new table on the way of `v`: every address below it is unmapped, as before.
    extended_here :
        (u : ℕ)
        → first u ≡ first v
        → answer e (extended w q (first v)).words root u ≡ answer e w.words root u
    extended_here u same =
        answer-place a root (small_page (link_there u same))
        ∙ empty (second u) (second_small u)
        ∙ sym (
            answer-place a root (section (inl (unused_there u same)))
            ∙ rw (unused_there u same) refl)
      where
        unused_there : (u : ℕ) → first u ≡ first v → pte.is_unused (top e w.words root u) ≡ true
        unused_there u same = rw same unused

        link_there :
            (u : ℕ)
            → first u ≡ first v
            → IsLink a root (top e (extended w q (first v)).words root u)
        link_there u same = rw same new-IsLink

        empty :
            (j : ℕ)
            → j < 256
            → mapped_by a root size_4k (
                (extended w q (first v)).words
                  (entry_at (pte.paddr (top e (extended w q (first v)).words root u)) j))
              ≡ none
        empty j small = rw (same, frame_here, empty_there j small, a.lawful.is_unused_lem 0) refl

    extended_else :
        (u : ℕ)
        → first u ≢ first v
        → answer e (extended w q (first v)).words root u ≡ answer e w.words root u
    extended_else u differs =
        answer-agree a root (extended w q (first v)).words w.words root u
          (root_kept (first u) (first_small u) differs)
          (λ link. table_kept _ (first u) (second u) (link-owner a root t u link) (second_small u))

    pub extended_same :
        (u : ℕ) → answer e (extended w q (first v)).words root u ≡ answer e w.words root u
    extended_same u = elim (Bool-cases (first u == first v)) [
      | inl here ↦ extended_here u ((==_iff (first u) (first v)).0 here)
      | inr there ↦ extended_else u (λ same. ground arith)
    ]

    pub extended-IsPlace :
        IsPlace a root
          (extended w q (first v)).words
          v
          size_4k
          (below e (extended w q (first v)).words root v)
    extended-IsPlace = small_page new-IsLink

    pub extended_unused :
        pte.is_unused
          ((extended w q (first v)).words (below e (extended w q (first v)).words root v))
        ≡ true
    extended_unused =
        rw (frame_here, empty_there (second v) (second_small v), a.lawful.is_unused_lem 0) refl
