-- ===== src/Table64/Pages.antt =====
-- The pages of a height as ranges of addresses.
use mathlib.Core.Path.{subst}
use page_table_multiarch.Common.{
  ℕ, zero, suc, ◌+◌, ◌-◌, ◌*◌, ◌/◌, ◌%◌, ◌^◌, ◌≤◌, ◌<◌, ◌≡◌, ◌≢◌, ◌⊎◌, inl, inr, refl, sym, ◌∙◌,
  arith,
}
use native.Mathlib.Nat.{one-le-pow}
use page_table_multiarch.Paging.{size_of}
use page_table_multiarch.Table64.Height.{page_number, index_at, route, page, mod_digit, size_at}

-- the addresses that a table of so many levels translates
abbrev pub space : ℕ → ℕ
space levels = 2 ^ (12 + 9 * levels)

page-number : (top h v : ℕ) → page top h v ≡ page_number h v % (512 ^ (top - h) * 512)
unfolding page route index_at page_number
page-number top h v =
    mod_digit (page_number h v) (512 ^ (top - h)) (one-le-pow (top - h) 512 (omega arith))

number-size : (h v : ℕ) → h ≤ 2 → page_number h v ≡ v / size_of (size_at h)
unfolding page_number
number-size zero v low = refl
number-size (suc zero) v low = omega arith
number-size (suc (suc zero)) v low = omega arith
number-size (suc (suc (suc h))) v low = absurd (omega arith)

-- Below the space the number of a page is not reduced.
fits-three : (h v : ℕ) → h ≤ 2 → v < space 3 → v / size_of (size_at h) < 512 ^ (2 - h) * 512
fits-three zero v low small = omega arith
fits-three (suc zero) v low small = omega arith
fits-three (suc (suc zero)) v low small = omega arith
fits-three (suc (suc (suc h))) v low small = absurd (omega arith)

fits-four : (h v : ℕ) → h ≤ 2 → v < space 4 → v / size_of (size_at h) < 512 ^ (3 - h) * 512
fits-four zero v low small = omega arith
fits-four (suc zero) v low small = omega arith
fits-four (suc (suc zero)) v low small = omega arith
fits-four (suc (suc (suc h))) v low small = absurd (omega arith)

small-mod : (a m : ℕ) → a < m → a % m ≡ a
small-mod a m lt = grind arith

pub page-chunk :
    (levels h v : ℕ)
    → (levels ≡ 3) ⊎ (levels ≡ 4)
    → h ≤ 2
    → v < space levels
    → page (levels - 1) h v ≡ v / size_of (size_at h)
page-chunk levels h v (inl l) low small = rw l (
    page-number 2 h v
    ∙ rw (number-size h v low)
        (small-mod _ _ (fits-three h v low (subst (λ n. v < space n) l small))))
page-chunk levels h v (inr l) low small = rw l (
    page-number 3 h v
    ∙ rw (number-size h v low)
        (small-mod _ _ (fits-four h v low (subst (λ n. v < space n) l small))))

pub space-small : (levels : ℕ) → (levels ≡ 3) ⊎ (levels ≡ 4) → space levels ≤ 2 ^ 48
space-small levels (inl l) = rw l (omega arith)
space-small levels (inr l) = rw l (omega arith)

pub no_wrap : (a : ℕ) → a ≤ 2 ^ 48 → a % 2 ^ 64 ≡ a
no_wrap a small = omega arith

-- The addresses of the page that starts at `b`.
pub inside-page :
    (h u b : ℕ)
    → h ≤ 2
    → b % size_of (size_at h) ≡ 0
    → b ≤ u
    → u < b + size_of (size_at h)
    → u / size_of (size_at h) ≡ b / size_of (size_at h)
inside-page zero u b low aligned from to = omega arith
inside-page (suc zero) u b low aligned from to = omega arith
inside-page (suc (suc zero)) u b low aligned from to = omega arith
inside-page (suc (suc (suc h))) u b low aligned from to = absurd (omega arith)

pub outside-page :
    (h u b : ℕ)
    → h ≤ 2
    → b % size_of (size_at h) ≡ 0
    → u / size_of (size_at h) ≡ b / size_of (size_at h)
    → (b ≤ u) × (u < b + size_of (size_at h))
outside-page zero u b low aligned same = (omega arith, omega arith)
outside-page (suc zero) u b low aligned same = (omega arith, omega arith)
outside-page (suc (suc zero)) u b low aligned same = (omega arith, omega arith)
outside-page (suc (suc (suc h))) u b low aligned same = absurd (omega arith)

module _ (levels h u b : ℕ) (l : (levels ≡ 3) ⊎ (levels ≡ 4)) (low : h ≤ 2)
    (aligned : b % size_of (size_at h) ≡ 0) (small : u < space levels)
    (start : b < space levels) where
  pub same-page :
      b ≤ u → u < b + size_of (size_at h) → page (levels - 1) h u ≡ page (levels - 1) h b
  same-page from to =
      page-chunk levels h u l low small
      ∙ inside-page h u b low aligned from to
      ∙ sym (page-chunk levels h b l low start)

  pub other-page :
      (u < b) ⊎ (b + size_of (size_at h) ≤ u) → page (levels - 1) h u ≢ page (levels - 1) h b
  other-page out same =
      let (from, to) =
        outside-page h u b low aligned
          (sym (page-chunk levels h u l low small) ∙ same ∙ page-chunk levels h b l low start) in
      absurd (ground arith)
