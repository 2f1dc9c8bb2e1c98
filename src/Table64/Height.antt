-- ===== src/Table64/Height.antt =====
-- The levels of a table by height: tables of height 0 hold 4K pages, of height 1 and 2 the larger
-- ones, and the root stands at the height `top`. A route is the number of a table within its
-- height, as the indices on the way from the root spell it.
use mathlib.Core.Path.{subst, ◌∙◌}
use native.Mathlib.Nat.{pow-suc, one-le-pow, add-zero}
use page_table_multiarch.Common.{
  ℕ, zero, suc, ◌+◌, ◌-◌, ◌*◌, ◌/◌, ◌%◌, ◌^◌, ◌≤◌, ◌<◌, ◌≡◌, sym, arith,
}
use page_table_multiarch.Bits.{bit_and_low}
use page_table_multiarch.Paging.{PageSize, size_4k, size_1m, size_2m, size_1g}
use page_table_multiarch.Table64.Defs.{p4_index, p3_index, p2_index, p1_index}

unfoldable pub page_number : (height vaddr : ℕ) → ℕ
page_number zero v = v / 0x1000
page_number (suc h) v = page_number h v / 512

unfoldable pub index_at : (height vaddr : ℕ) → ℕ
index_at h v = page_number h v % 512

-- The number of the table at a height, and of the entry in it, on the way of `v`.
unfoldable pub route : (top height vaddr : ℕ) → ℕ
route top h v = page_number (suc h) v % 512 ^ (top - h)

unfoldable pub page : (top height vaddr : ℕ) → ℕ
page top h v = route top h v * 512 + index_at h v

pub index_at-lt : (h v : ℕ) → index_at h v < 512
unfolding index_at
index_at-lt h v = omega arith

pub route_top : (top v : ℕ) → route top top v ≡ 0
unfolding route
route_top top v = ground arith

pub mod_digit : (a m : ℕ) → 0 < m → a / 512 % m * 512 + a % 512 ≡ a % (m * 512)
mod_digit a m h = grind arith

pub route_step :
    (top h v : ℕ) → suc h ≤ top → route top h v ≡ route top (suc h) v * 512 + index_at (suc h) v
unfolding route index_at page_number
route_step top h v le =
    rw (one_more, pow-suc 512 (top - suc h))
      (sym (
        mod_digit (page_number h v / 512) (512 ^ (top - suc h))
          (one-le-pow (top - suc h) 512 (omega arith))))
  where
    one_more : top - h ≡ suc (top - suc h)
    one_more = omega arith

-- Equal entries in equal tables.
pub page-eq : (top h v x i : ℕ) → route top h v ≡ x → index_at h v ≡ i → page top h v ≡ x * 512 + i
unfolding page
page-eq top h v x i p q = omega arith

pub p1_index-index_at : (v : ℕ) → p1_index v ≡ index_at 0 v
unfolding p1_index index_at page_number
p1_index-index_at v = bit_and_low 9 (v / 2 ^ 12)

pub p2_index-index_at : (v : ℕ) → p2_index v ≡ index_at 1 v
unfolding p2_index index_at page_number
p2_index-index_at v = omega (arith, bit_and_low 9 (v / 2 ^ 21))

pub p3_index-index_at : (v : ℕ) → p3_index v ≡ index_at 2 v
unfolding p3_index index_at page_number
p3_index-index_at v = omega (arith, bit_and_low 9 (v / 2 ^ 30))

pub p4_index-index_at : (v : ℕ) → p4_index v ≡ index_at 3 v
unfolding p4_index index_at page_number
p4_index-index_at v = omega (arith, bit_and_low 9 (v / 2 ^ 39))

-- The page size at a height, and back. `map` treats a 1M page as an entry of the lowest table.
abbrev pub size_at : ℕ → PageSize
size_at zero = size_4k
size_at (suc zero) = size_2m
size_at (suc (suc _)) = size_1g

abbrev pub height_of : PageSize → ℕ
height_of size_4k = 0
height_of size_1m = 0
height_of size_2m = 1
height_of size_1g = 2

-- Addresses of one page share the entries from the page's height up to the root.
pub route-same : (top h u v : ℕ) → page top h u ≡ page top h v → route top h u ≡ route top h v
unfolding page
route-same top h u v same = omega (arith, index_at-lt h u, index_at-lt h v)

pub index-same : (top h u v : ℕ) → page top h u ≡ page top h v → index_at h u ≡ index_at h v
unfolding page
index-same top h u v same = omega (arith, index_at-lt h u, index_at-lt h v)

page-up :
    (top h u v : ℕ)
    → suc h ≤ top
    → page top h u ≡ page top h v
    → page top (suc h) u ≡ page top (suc h) v
page-up top h u v le same =
    unfold page in sym (route_step top h u le) ∙ route-same top h u v same ∙ route_step top h v le

page-above :
    (top h u v k : ℕ)
    → h + k ≤ top
    → page top h u ≡ page top h v
    → page top (h + k) u ≡ page top (h + k) v
page-above top h u v zero le same = subst (λ n. page top n u ≡ page top n v) (sym (add-zero h)) same
page-above top h u v (suc k) le same =
    subst (λ n. page top n u ≡ page top n v) (omega arith)
      (page-up top (h + k) u v (omega arith) (page-above top h u v k (omega arith) same))

pub index-same_above :
    (top low h u v : ℕ)
    → low ≤ h
    → h ≤ top
    → page top low u ≡ page top low v
    → index_at h u ≡ index_at h v
index-same_above top low h u v le high same = index-same top h u v (
    subst (λ n. page top n u ≡ page top n v) (omega arith)
      (page-above top low u v (h - low) (omega arith) same))
