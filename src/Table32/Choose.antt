-- ===== src/Table32/Choose.antt =====
-- The page size that `map_region` chooses on two-level tables, and the addresses of a page.
use page_table_multiarch.Common.{
  ℕ, ◌+◌, ◌-◌, ◌%◌, ◌^◌, ◌≤◌, ◌<◌, ◌≡◌, ◌≢◌, ◌⊎◌, ◌↔◌, inl, inr, Bool, ◌&&◌, Bool-cases, leb, arith,
}
use page_table_multiarch.Paging.{PageSize, size_1m, size_of, is_aligned, Platform}
use page_table_multiarch.Table32.Contract.{IsPlatform}
use page_table_multiarch.Table32.Placed.{page}
use page_table_multiarch.Table32.Mapped.{IsSize, is_4k, is_1m}
use page_table_multiarch.Table32.Region.{choose_size}

-- A page that starts at an address with its alignment is the addresses from there on.
pub page-range :
    {size : PageSize} (u v : ℕ)
    → IsSize size
    → u < 2 ^ 32
    → v % size_of size ≡ 0
    → v + size_of size ≤ 2 ^ 32
    → (page size u ≡ page size v) ↔ (v ≤ u) × (u < v + size_of size)
unfolding page
page-range u v is_4k small aligned room = ground arith
page-range u v is_1m small aligned room = ground arith

-- What `choose_size` guarantees of the page that it chooses.
pub record Chosen (vaddr size : ℕ) (chosen : PageSize) : Type 0 where
  pub kind : IsSize chosen
  pub aligned : vaddr % size_of chosen ≡ 0
  pub fits : size_of chosen ≤ size
  pub left : (size - size_of chosen) % 0x1000 ≡ 0
  pub progress : 0x1000 ≤ size_of chosen
  pub next : (vaddr + size_of chosen) % 2 ^ 32 % 0x1000 ≡ 0

-- The rest of a region behind its first page, `p` bytes long.
abbrev pub Outside : (v size u : ℕ) → Type 0
Outside v size u = (u < v) ⊎ (v + size ≤ u)

pub rest-Outside :
    (v size p u : ℕ)
    → p ≤ size
    → v + size ≤ 2 ^ 32
    → (u < v + p) ⊎ (v + size ≤ u)
    → Outside ((v + p) % 2 ^ 32) (size - p) u
rest-Outside v size p u fits room side = ground arith

pub next_room :
    (v size p : ℕ) → p ≤ size → v + size ≤ 2 ^ 32 → (v + p) % 2 ^ 32 + (size - p) ≤ 2 ^ 32
next_room v size p fits room = omega arith

pub page_room : (v size p : ℕ) → p ≤ size → v + size ≤ 2 ^ 32 → v + p ≤ 2 ^ 32
page_room v size p fits room = omega arith

module _ {S V B : Type 0} {e : Platform S V B} (a : IsPlatform e) where
  open e use {addr}

  pub choose_size-Chosen :
      (allow_huge : Bool) (vaddr paddr size : ℕ)
      → vaddr % 0x1000 ≡ 0
      → size % 0x1000 ≡ 0
      → size ≢ 0
      → Chosen vaddr size (choose_size e allow_huge vaddr paddr size)
  unfolding choose_size
  choose_size-Chosen allow_huge vaddr paddr size aligned whole more = elim (Bool-cases test) [
    | inl large ↦ rw large (record {
      kind = is_1m;
      aligned = ground (arith, large, a.alignment.is_aligned_lem vaddr 20);
      fits = ground (arith, large);
      left = ground (arith, large);
      progress = omega arith;
      next = omega arith;
    })
    | inr small ↦ rw small (record {
      kind = is_4k;
      aligned = aligned;
      fits = omega arith;
      left = omega arith;
      progress = omega arith;
      next = omega arith;
    })
  ]
    where
      test : Bool
      test =
          allow_huge
          && is_aligned addr size_1m vaddr
          && is_aligned addr size_1m paddr
          && leb (size_of size_1m) size
