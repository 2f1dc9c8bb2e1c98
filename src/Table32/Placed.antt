-- ===== src/Table32/Placed.antt =====
-- The shape of two-level tables: every link of the root leads to a frame of its own.
use page_table_multiarch.Common.{
  ℕ, ◌+◌, ◌*◌, ◌/◌, ◌%◌, ◌^◌, ◌≤◌, ◌<◌, ◌≡◌, ◌≢◌, ◌⊎◌, ◌↔◌, refl, ◌∙◌, inl, inr, Bool-cases, Option,
  none, some, true, false, if◌then◌else◌, arith, ==_ne, ==_refl,
}
use page_table_multiarch.Paging.{
  PageSize, size_4k, size_1m, size_2m, size_1g, size_of, Platform, page_size_4k,
}
use page_table_multiarch.Table32.Defs.{Memory, entry_at, store, l1_align, l1_size_pages}
use page_table_multiarch.Table32.Contract.{IsPlatform}
use page_table_multiarch.Table32.Answer.{first, second, top, below, found, used, answer}

-- For each frame in use as an L2 table the number of its entry in the root.
abbrev pub Owners : Type 0
Owners = ℕ → Option ℕ

-- The page of the given size in which an address lies.
unfoldable pub page : PageSize → ℕ → ℕ
page size u = u % 2 ^ 32 / size_of size

module _ {S V B : Type 0} {e : Platform S V B} (a : IsPlatform e) (root : ℕ) where
  open e use {pte}

  -- an entry of the root that leads to a table
  pub record IsLink (word : ℕ) : Type 0 where
    pub in_use : pte.is_unused word ≡ false
    pub no_section : pte.is_huge word ≡ false

  pub record IsTable (owner : Owners) (w : Memory S) : Type 0 where
    pub root_aligned : root % l1_align ≡ 0
    pub root_live : (k : ℕ) → k < l1_size_pages → a.live w.os (root + page_size_4k * k) ≡ true
    pub linked :
        (i : ℕ)
        → i < 4096
        → IsLink (w.words (entry_at root i))
        → owner (pte.paddr (w.words (entry_at root i))) ≡ some i
    pub owned_live : (q i : ℕ) → owner q ≡ some i → a.live w.os q ≡ true
    pub owned_aligned : (q i : ℕ) → owner q ≡ some i → q % page_size_4k ≡ 0
    pub owned_apart :
        (q i : ℕ)
        → owner q ≡ some i
        → (q + page_size_4k ≤ root) ⊎ (root + l1_size_pages * page_size_4k ≤ q)

  -- The place in which the descent of an address ends, if its entry in the root is no link to a
  -- table that is missing: a section's place is also that of an unused entry.
  pub data IsPlace (words : ℕ → ℕ) (v : ℕ) : PageSize → ℕ → Type 0 where
    section :
        (pte.is_unused (top e words root v) ≡ true) ⊎ (pte.is_huge (top e words root v) ≡ true)
        → IsPlace words v size_1m (entry_at root (first v))
    small_page : IsLink (top e words root v) → IsPlace words v size_4k (below e words root v)

  -- The words that may stand in the place of a page: in the root no link.
  abbrev pub IsLeaf : PageSize → ℕ → Type 0
  IsLeaf size_4k word = Unit {0}
  IsLeaf size_1m word = (pte.is_unused word ≡ true) ⊎ (pte.is_huge word ≡ true)
  IsLeaf size_2m word = Unit {0}
  IsLeaf size_1g word = Unit {0}

abbrev pub rewritten : {S : Type 0} → Memory S → ℕ → ℕ → Memory S
rewritten w p word = record w { words = store w.words p word }

pub first_small : (u : ℕ) → first u < 4096
unfolding first
first_small u = omega arith

pub second_small : (u : ℕ) → second u < 256
unfolding second
second_small u = omega arith

pub first-page : (u v : ℕ) → (page size_1m u ≡ page size_1m v) ↔ (first u ≡ first v)
unfolding page first
first-page u v = ground arith

pub both-page :
    (u v : ℕ) → (page size_4k u ≡ page size_4k v) ↔ (first u ≡ first v) × (second u ≡ second v)
unfolding page first second
both-page u v = ground arith

pub store_here : (words : ℕ → ℕ) (p word : ℕ) → store words p word p ≡ word
store_here words p word = rw (==_refl p)

pub store_else : (words : ℕ → ℕ) (p word b : ℕ) → b ≢ p → store words p word b ≡ words b
store_else words p word b apart = rw (==_ne b p apart)

module _ {S V B : Type 0} {e : Platform S V B} (a : IsPlatform e) (root : ℕ) where
  open e use {pte}

  -- The answer to an address rests on its entry in the root and, below a link, on one word more:
  -- two roots agree where these words do.
  pub answer-agree :
      (words' words : ℕ → ℕ) (root' u : ℕ)
      → words' (entry_at root' (first u)) ≡ top e words root u
      → (IsLink a root (top e words root u)
          → words' (below e words root u) ≡ words (below e words root u))
      → answer e words' root' u ≡ answer e words root u
  unfolding answer found
  answer-agree words' words root' u same deeper =
      elim (Bool-cases (pte.is_unused (top e words root u))) [
        | inl unused ↦ rw (same, unused)
        | inr in_use ↦ elim (Bool-cases (pte.is_huge (top e words root u))) [
          | inl huge ↦ rw (same, in_use, huge, same, in_use)
          | inr link ↦
              rw (same, in_use, link, deeper (record { in_use = in_use; no_section = link }))
        ]
      ]

  -- An address is answered from the place in which its descent ends.
  abbrev pub mapped_by : (size : PageSize) (word : ℕ) → Option (ℕ × PageSize)
  mapped_by size word = if pte.is_unused word then none else some (word, size)

  pub answer-place :
      {words : ℕ → ℕ} {v p : ℕ} {size : PageSize}
      → IsPlace a root words v size p
      → answer e words root v ≡ mapped_by size (words p)
  unfolding answer found
  answer-place (section (inl unused)) = rw unused refl
  answer-place {words} {v} (section (inr huge)) =
      elim (Bool-cases (pte.is_unused (top e words root v))) [
        | inl unused ↦ rw unused refl
        | inr in_use ↦ rw (in_use, huge, in_use)
      ]
  answer-place (small_page link) = rw (link.in_use, link.no_section)

  pub answer-used :
      {words : ℕ → ℕ} {v p : ℕ} {size : PageSize}
      → IsPlace a root words v size p
      → pte.is_unused (words p) ≡ false
      → answer e words root v ≡ some (words p, size)
  answer-used at used = answer-place at ∙ rw used refl

  pub answer-unused :
      {words : ℕ → ℕ} {v p : ℕ} {size : PageSize}
      → IsPlace a root words v size p
      → pte.is_unused (words p) ≡ true
      → answer e words root v ≡ none
  answer-unused at unused = answer-place at ∙ rw unused refl
