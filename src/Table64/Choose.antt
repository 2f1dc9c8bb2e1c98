-- ===== src/Table64/Choose.antt =====
-- The page size that `map_region` chooses.
use page_table_multiarch.Common.{
  ℕ, ◌+◌, ◌-◌, ◌%◌, ◌≤◌, ◌<◌, ◌≡◌, ◌⊎◌, inl, inr, refl, Bool, true, false, ◌&&◌, leb, Bool-cases,
  if◌then◌else◌, arith,
}
use page_table_multiarch.Paging.{PageSize, size_4k, size_2m, size_1g, size_of, is_aligned, Platform}
use page_table_multiarch.Paging.Contract.{IsPlatform}
use page_table_multiarch.Table64.Height.{size_at, height_of}
use page_table_multiarch.Table64.Region.{choose_size}

module _ {S V B : Type 0} {e : Platform S V B} (a : IsPlatform e) where
  -- What the choice of a page size promises.
  pub record Fits (vaddr paddr size : ℕ) (p : PageSize) : Type 0 where
    pub vaddr_aligned : vaddr % size_of p ≡ 0
    pub paddr_aligned : (p ≡ size_4k) ⊎ (paddr % size_of p ≡ 0)
    pub within : size_of p ≤ size
    pub whole : size % 0x1000 ≡ 0 → (size - size_of p) % 0x1000 ≡ 0
    pub next : (vaddr + size_of p) % 0x1000 ≡ 0
    pub positive : 0x1000 ≤ size_of p
    pub at_height : size_at (height_of p) ≡ p

  pick :
      {vaddr paddr size : ℕ} {p q : PageSize} (b : Bool)
      → (b ≡ true → Fits vaddr paddr size p)
      → Fits vaddr paddr size q
      → Fits vaddr paddr size (if b then p else q)
  pick {vaddr} {paddr} {size} {p} {q} b then_fits else_fits = elim (Bool-cases b) [
    | inl t ↦ rw t (then_fits t)
    | inr t ↦ rw t else_fits
  ]

  module _ (vaddr paddr size : ℕ) (va : vaddr % 0x1000 ≡ 0) (sa : size % 0x1000 ≡ 0)
      (left : 0 < size) where
    Fits-4k : Fits vaddr paddr size size_4k
    Fits-4k = record {
      vaddr_aligned = va;
      paddr_aligned = inl refl;
      within = omega arith;
      whole = λ h. omega arith;
      next = omega arith;
      positive = omega arith;
      at_height = refl;
    }

    Fits-2m :
        (is_aligned e.addr size_2m vaddr
            && is_aligned e.addr size_2m paddr
            && leb (size_of size_2m) size)
          ≡ true
        → Fits vaddr paddr size size_2m
    Fits-2m test =
        let (v0, p0, le) = tests in
        record {
          vaddr_aligned = v0;
          paddr_aligned = inr p0;
          within = le;
          whole = λ h. omega arith;
          next = omega (arith, v0);
          positive = omega arith;
          at_height = refl;
        }
      where
        tests : (vaddr % 0x20_0000 ≡ 0) × (paddr % 0x20_0000 ≡ 0) × (0x20_0000 ≤ size)
        tests =
            ground (arith, a.alignment.is_aligned_lem vaddr 21, a.alignment.is_aligned_lem paddr 21)

    Fits-1g :
        (is_aligned e.addr size_1g vaddr
            && is_aligned e.addr size_1g paddr
            && leb (size_of size_1g) size)
          ≡ true
        → Fits vaddr paddr size size_1g
    Fits-1g test =
        let (v0, p0, le) = tests in
        record {
          vaddr_aligned = v0;
          paddr_aligned = inr p0;
          within = le;
          whole = λ h. omega arith;
          next = omega (arith, v0);
          positive = omega arith;
          at_height = refl;
        }
      where
        tests : (vaddr % 0x4000_0000 ≡ 0) × (paddr % 0x4000_0000 ≡ 0) × (0x4000_0000 ≤ size)
        tests =
            ground (arith, a.alignment.is_aligned_lem vaddr 30, a.alignment.is_aligned_lem paddr 30)

    -- The page size that `map_region` chooses for an address and a size that are multiples of 4K, where
    -- something is left of the region: the address is aligned to it, so is the target unless it is 4K,
    -- it is not larger than what is left, and what is left after it is again such a region.
    pub choose_size-Fits :
        (allow_huge : Bool) → Fits vaddr paddr size (choose_size e allow_huge vaddr paddr size)
    unfolding choose_size
    choose_size-Fits true = pick _ Fits-1g (pick _ Fits-2m Fits-4k)
    choose_size-Fits false = Fits-4k
