-- ===== src/Table32/Written.antt =====
-- The entry of a page is written: the table stays well formed, the addresses of the page are
-- answered from the word written, and all others as before.
use mathlib.Core.Path.{subst}
use page_table_multiarch.Common.{
  ℕ, ◌<◌, ◌≡◌, ◌≢◌, ◌⊎◌, ◌==◌, ==_iff, Bool-cases, sym, ap, ◌∙◌, inl, inr, some, true, false, arith,
}
use page_table_multiarch.Paging.{PageSize, size_4k, size_1m, Platform}
use page_table_multiarch.Table32.Defs.{Memory, entry_at, store}
use page_table_multiarch.Table32.Contract.{IsPlatform}
use page_table_multiarch.Table32.Answer.{first, second, top, below, answer}
use page_table_multiarch.Table32.Placed.{
  Owners, page, IsLink, IsTable, IsPlace, section, small_page, IsLeaf, rewritten, first_small,
  second_small, first-page, both-page, store_here, store_else, answer-agree, answer-place,
  mapped_by,
}

module _ {S V B : Type 0} {e : Platform S V B} (a : IsPlatform e) (root : ℕ) where
  open e use {pte}

  -- The addresses of a page share its place.
  pub shared :
      {words : ℕ → ℕ} {v p : ℕ} {size : PageSize} (u : ℕ)
      → IsPlace a root words v size p
      → page size u ≡ page size v
      → IsPlace a root words u size p
  shared {words} {v} u (section end) same =
      subst
        (λ i.
          (pte.is_unused (words (entry_at root i)) ≡ true)
            ⊎ (pte.is_huge (words (entry_at root i)) ≡ true)
          → IsPlace a root words u size_1m (entry_at root i))
        ((first-page u v).0 same) section end
  shared {words} {v} u (small_page link) same =
      let (eq1, eq2) = (both-page u v).0 same in
      subst (λ p. IsPlace a root words u size_4k p)
        (ap (λ i. entry_at (pte.paddr (words (entry_at root i))) (second u)) eq1
          ∙ ap (λ j. entry_at (pte.paddr (words (entry_at root (first v)))) j) eq2)
        (small_page (subst (λ i. IsLink a root (words (entry_at root i))) (sym eq1) link))

  module _ {owner : Owners} {w : Memory S} (t : IsTable a root owner w) where
    -- the frame of an L2 table lies apart from the root
    pub below_apart :
        (q i j k : ℕ) → owner q ≡ some i → j < 256 → k < 4096 → entry_at q j ≢ entry_at root k
    below_apart q i j k here small_j small_k = elim (t.owned_apart q i here) [
      | inl before ↦ λ same. absurd (omega arith)
      | inr after ↦ λ same. absurd (omega arith)
    ]

    pub link-owner :
        (u : ℕ)
        → IsLink a root (top e w.words root u)
        → owner (pte.paddr (top e w.words root u)) ≡ some (first u)
    link-owner u link = t.linked (first u) (first_small u) link

    pub below_else :
        (u k : ℕ)
        → IsLink a root (top e w.words root u)
        → k < 4096
        → below e w.words root u ≢ entry_at root k
    below_else u k link small =
        below_apart (pte.paddr (top e w.words root u)) (first u) (second u) k (link-owner u link)
          (second_small u) small

    -- entries of two frames differ
    frames_apart :
        (q q' i i' j j' : ℕ)
        → owner q ≡ some i
        → owner q' ≡ some i'
        → q ≢ q'
        → j < 256
        → j' < 256
        → entry_at q j ≢ entry_at q' j'
    frames_apart q q' i i' j j' here here' differ small small' same =
        let x = t.owned_aligned q i here in
        let y = t.owned_aligned q' i' here' in absurd (omega arith)

    tables_apart :
        (u v : ℕ)
        → IsLink a root (top e w.words root u)
        → IsLink a root (top e w.words root v)
        → page size_4k u ≢ page size_4k v
        → below e w.words root u ≢ below e w.words root v
    tables_apart u v link link' apart same = elim (Bool-cases (first u == first v)) [
      | inl eq ↦
          let firsts = (==_iff (first u) (first v)).0 eq in
          let frames = ap (λ i. pte.paddr (w.words (entry_at root i))) firsts in
          apart ((both-page u v).1 (firsts, omega (arith, same, frames)))
      | inr ne ↦
          frames_apart (pte.paddr (top e w.words root u)) (pte.paddr (top e w.words root v))
            (first u) (first v) (second u) (second v) (link-owner u link) (link-owner v link')
            (λ frames. differ ne (sym (link-owner u link) ∙ ap owner frames ∙ link-owner v link'))
            (second_small u) (second_small v) same
    ]
      where
        differ : (first u == first v) ≡ false → some (first u) ≡ some (first v) → ⊥
        differ ne firsts = ground arith

  module _ {owner : Owners} {w : Memory S} (t : IsTable a root owner w) where
    -- The words on which the answers of other pages rest are not written.
    above_else :
        {v p : ℕ} {size : PageSize} (u : ℕ)
        → IsPlace a root w.words v size p
        → page size u ≢ page size v
        → entry_at root (first u) ≢ p
    above_else {v} u (section end) apart same = apart ((first-page u v).1 (omega (arith, same)))
    above_else {v} u (small_page link) apart same =
        below_else t v (first u) link (first_small u) (sym same)

    deeper_else :
        {v p : ℕ} {size : PageSize} (u : ℕ)
        → IsPlace a root w.words v size p
        → page size u ≢ page size v
        → IsLink a root (top e w.words root u)
        → below e w.words root u ≢ p
    deeper_else {v} u (section end) apart link = below_else t u (first v) link (first_small v)
    deeper_else {v} u (small_page link') apart link = tables_apart t u v link link' apart

    pub written_else :
        {v p : ℕ} {size : PageSize} (word u : ℕ)
        → IsPlace a root w.words v size p
        → page size u ≢ page size v
        → answer e (store w.words p word) root u ≡ answer e w.words root u
    written_else {v} {p} word u at apart =
        answer-agree a root (store w.words p word) w.words root u
          (store_else w.words p word (entry_at root (first u)) (above_else u at apart))
          (λ link. store_else w.words p word (below e w.words root u) (deeper_else u at apart link))

    -- The place of a page is the place of its addresses still.
    pub written-IsPlace :
        {v p : ℕ} {size : PageSize} (word : ℕ)
        → IsPlace a root w.words v size p
        → IsLeaf a root size word
        → IsPlace a root (store w.words p word) v size p
    written-IsPlace {v} {p} word (section end) leaf = section (rw (store_here w.words p word) leaf)
    written-IsPlace {v} {p} word (small_page link) leaf =
        subst
          (λ x.
            IsLink a root x
            → IsPlace a root (store w.words p word) v size_4k (entry_at (pte.paddr x) (second v)))
          (store_else w.words p word (entry_at root (first v))
            (λ same. below_else t v (first v) link (first_small v) (sym same)))
          small_page link

    pub written_here :
        {v p : ℕ} {size : PageSize} (word u : ℕ)
        → IsPlace a root w.words v size p
        → IsLeaf a root size word
        → page size u ≡ page size v
        → answer e (store w.words p word) root u ≡ mapped_by a root size word
    written_here {v} {p} {size} word u at leaf same =
        answer-place a root (written-IsPlace word (shared u at same) leaf)
        ∙ ap (mapped_by a root size) (store_here w.words p word)

    leaf_no_link : (word : ℕ) → IsLeaf a root size_1m word → IsLink a root word → ⊥
    leaf_no_link word (inl unused) link = cc (unused, link.in_use)
    leaf_no_link word (inr huge) link = cc (huge, link.no_section)

    still_linked :
        {v p : ℕ} {size : PageSize} (word : ℕ)
        → IsPlace a root w.words v size p
        → IsLeaf a root size word
        → (i : ℕ) → i < 4096
        → IsLink a root (store w.words p word (entry_at root i))
        → owner (pte.paddr (store w.words p word (entry_at root i))) ≡ some i
    still_linked {v} {p} word (section end) leaf i small =
        elim (Bool-cases (entry_at root i == p)) [
          | inl here ↦ rw here λ link. absurd (leaf_no_link word leaf link)
          | inr else ↦ rw else (t.linked i small)
        ]
    still_linked {v} {p} word (small_page link) leaf i small =
        rw
          (store_else w.words p word (entry_at root i)
            (λ same. below_else t v i link small (sym same)))
          (t.linked i small)

    pub written-IsTable :
        {v p : ℕ} {size : PageSize} (word : ℕ)
        → IsPlace a root w.words v size p
        → IsLeaf a root size word
        → IsTable a root owner (rewritten w p word)
    written-IsTable {v} {p} word at leaf = record {
      root_aligned = t.root_aligned;
      root_live = t.root_live;
      linked = still_linked word at leaf;
      owned_live = t.owned_live;
      owned_aligned = t.owned_aligned;
      owned_apart = t.owned_apart;
    }
