-- ===== src/Table32/Dropped.antt =====
-- The `Drop` of a two-level table: which frames go back to the allocator, and how often.
use mathlib.Core.Path.{subst}
use page_table_multiarch.Common.{
  ℕ, zero, suc, ◌+◌, ◌≤◌, ◌<◌, ◌≡◌, ◌≢◌, refl, sym, ap, ◌∙◌, inl, inr, Bool, true, false, not, ◌&&◌,
  some, Bool-cases, List, [], ◌∷◌, ◌==◌, ==_iff, ==_refl, ==_ne, if◌then◌else◌, arith,
}
use page_table_multiarch.Paging.{ok, Platform}
use page_table_multiarch.Paging.Run.{done, and_then}
use page_table_multiarch.Table32.Defs.{PageTable32, Memory, entry_count, entry_at}
use page_table_multiarch.Table32.Contract.{IsPlatform}
use page_table_multiarch.Table32.Placed.{Owners, IsTable}
use page_table_multiarch.Table32.Release.{is_borrowed, drop_entries, drop_table, dealloc_frames}

abbrev pub count : ℕ → List ℕ → ℕ
count q [] = 0
count q (x ∷ xs) = if x == q then suc (count q xs) else count q xs

module _ {S V B : Type 0} (e : Platform S V B) where
  open e use {pte, handler}

  -- `dealloc_frame` of each frame in turn
  abbrev pub release : List ℕ → S → S
  release [] os = os
  release (q ∷ frames) os = release frames (handler.dealloc_frame q os)

  module _ (t : PageTable32) (words : ℕ → ℕ) where
    -- the entry of the root at an index
    abbrev pub word_at : ℕ → ℕ
    word_at i = words (entry_at t.root_paddr i)

    -- an entry that leads to an L2 table of this root's own
    abbrev pub is_own : ℕ → Bool
    is_own i =
        not (is_borrowed t.borrowed_entries i)
        && not (pte.is_unused (word_at i))
        && not (pte.is_huge (word_at i))

    -- the frames of the own L2 tables from an entry on
    abbrev frames_from : (left i : ℕ) → List ℕ
    frames_from zero i = []
    frames_from (suc left) i =
        let rest = frames_from left (i + 1) in
        if is_own i then pte.paddr (word_at i) ∷ rest else rest

  drop_entries_lem :
      (t : PageTable32) (w : Memory S) (left i : ℕ)
      → drop_entries e t left i w
        ≡ done (ok tt) (record w { os = release (frames_from t w.words left i) w.os })
  unfolding drop_entries
  drop_entries_lem t w zero i = refl
  drop_entries_lem t w (suc left) i = elim (Bool-cases (is_own t w.words i)) [
    | inl own ↦ rw own (
        drop_entries_lem t
          (record w { os = handler.dealloc_frame (pte.paddr (word_at t w.words i)) w.os }) left
          (i + 1))
    | inr kept ↦ rw kept (drop_entries_lem t w left (i + 1))
  ]

module _ {S V B : Type 0} {e : Platform S V B} (a : IsPlatform e) (t : PageTable32) {owner : Owners}
    {w : Memory S} (shape : IsTable a t.root_paddr owner w) where
  open e use {pte, handler}

  abbrev frame_at : ℕ → ℕ
  frame_at i = pte.paddr (word_at e t w.words i)

  own-owner : (i : ℕ) → i < entry_count → is_own e t w.words i ≡ true → owner (frame_at i) ≡ some i
  own-owner i small own =
      shape.linked i small
        (record { in_use = ground (arith, own); no_section = ground (arith, own) })

  frames_differ :
      (i k : ℕ)
      → i < entry_count
      → is_own e t w.words i ≡ true
      → owner (frame_at k) ≡ some k
      → i ≢ k
      → (frame_at i == frame_at k) ≡ false
  frames_differ i k small own here differ =
      ==_ne _ _ λ same. differ (index_of (sym (own-owner i small own) ∙ ap owner same ∙ here))
    where
      index_of : {i k : ℕ} → some i ≡ some k → i ≡ k
      index_of same = cc

  count_before :
      (left i k : ℕ)
      → owner (frame_at k) ≡ some k
      → k < i
      → i + left ≤ entry_count
      → count (frame_at k) (frames_from e t w.words left i) ≡ 0
  count_before zero i k here before small = refl
  count_before (suc left) i k here before small = elim (Bool-cases (is_own e t w.words i)) [
    | inl own ↦
        rw (own, frames_differ i k (omega arith) own here (omega arith))
          (count_before left (i + 1) k here (omega arith) (omega arith))
    | inr kept ↦ rw kept (count_before left (i + 1) k here (omega arith) (omega arith))
  ]

  count_here :
      (left i : ℕ)
      → i + suc left ≤ entry_count
      → is_own e t w.words i ≡ true
      → count (frame_at i) (frames_from e t w.words (suc left) i) ≡ 1
  count_here left i small own =
      rw (own, ==_refl (frame_at i))
        (ap suc
          (count_before left (i + 1) i (own-owner i (omega arith) own) (omega arith) (omega arith)))

  count_later :
      (left i k : ℕ)
      → i < entry_count
      → k < entry_count
      → is_own e t w.words k ≡ true
      → i ≢ k
      → count (frame_at k) (frames_from e t w.words left (i + 1)) ≡ 1
      → count (frame_at k) (frames_from e t w.words (suc left) i) ≡ 1
  count_later left i k small small' own differ rest = elim (Bool-cases (is_own e t w.words i)) [
    | inl also ↦ rw (also, frames_differ i k small also (own-owner k small' own) differ) rest
    | inr kept ↦ rw kept rest
  ]

  count_once :
      (left i k : ℕ)
      → i ≤ k
      → k < i + left
      → i + left ≤ entry_count
      → is_own e t w.words k ≡ true
      → count (frame_at k) (frames_from e t w.words left i) ≡ 1
  count_once zero i k low high small own = absurd (omega arith)
  count_once (suc left) i k low high small own = elim (Bool-cases (i == k)) [
    | inl here ↦
        let eq = (==_iff i k).0 here in
        subst (λ k. count (frame_at k) (frames_from e t w.words (suc left) i) ≡ 1) eq
          (count_here left i small (subst (λ k. is_own e t w.words k ≡ true) (sym eq) own))
    | inr there ↦
        count_later left i k (omega arith) (omega arith) own (λ same. ground arith)
          (count_once left (i + 1) k (ground arith) (omega arith) (omega arith) own)
  ]

  count_only :
      (left i q : ℕ)
      → 0 < count q (frames_from e t w.words left i)
      → i + left ≤ entry_count
      → (k : ℕ) × (k < entry_count) × (is_own e t w.words k ≡ true) × (frame_at k ≡ q)
  count_only zero i q found small = absurd (omega arith)
  count_only (suc left) i q found small = elim (Bool-cases (is_own e t w.words i)) [
    | inl own ↦ elim (Bool-cases (frame_at i == q)) [
      | inl here ↦ (i, omega arith, own, (==_iff (frame_at i) q).0 here)
      | inr there ↦ count_only left (i + 1) q (ground (arith, found, own, there)) (omega arith)
    ]
    | inr kept ↦ count_only left (i + 1) q (ground (arith, found, kept)) (omega arith)
  ]

  -- What dropping the table does.
  pub record Drops : Type 0 where
    pub frames : List ℕ
    pub ends :
        drop_table e t w
        ≡ done
            (ok tt)
            (record w { os = handler.dealloc_frames t.root_paddr 4 (release e frames w.os) })
    pub once :
        (i : ℕ)
        → i < entry_count
        → is_own e t w.words i ≡ true
        → count (pte.paddr (word_at e t w.words i)) frames ≡ 1
    pub only :
        (q : ℕ)
        → 0 < count q frames
        → (i : ℕ) × (i < entry_count)
          × (is_own e t w.words i ≡ true)
          × (pte.paddr (word_at e t w.words i) ≡ q)

  -- Dropping a well-formed two-level table gives frames back to the allocator, then the four frames
  -- of the root. The frame of each L2 table that an entry of the root leads to, unless the entry is
  -- marked as borrowed, is given back exactly once, and no other frame is. Memory is not changed.
  pub drop_table-Drops : Drops
  unfolding drop_table
  drop_table-Drops = record {
    frames = frames_from e t w.words entry_count 0;
    ends =
        ap (λ r. and_then r (λ _. dealloc_frames e t.root_paddr 4))
          (drop_entries_lem e t w entry_count 0);
    once = λ i small own. count_once entry_count 0 i (omega arith) (omega arith) (omega arith) own;
    only = λ q found. count_only entry_count 0 q found (omega arith);
  }
