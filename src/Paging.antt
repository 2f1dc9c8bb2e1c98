-- ===== src/Paging.antt =====
-- page_table_multiarch/src/lib.rs: errors, page sizes, the traits `PagingMetaData` and
-- `PagingHandler`, and the flush requests of a cursor. `usize` has 64 bits.
pub mod Run
pub mod Flusher
pub mod Visit
pub mod Contract
pub mod Arch
use page_table_multiarch.Common.{
  ℕ, ◌+◌, ◌-◌, ◌*◌, ◌%◌, ◌^◌, bit_and, Bool, true, false, ◌||◌, Option, ◌==◌, leb, List,
}
use page_table_multiarch.Crates.{Bitflags, MemoryAddr, ArrayVec, Bitmap}
use page_table_multiarch.Entry.{GenericPte}

pub data PagingError : Type 0 where
  no_memory not_aligned not_mapped already_mapped mapped_to_huge_page : PagingError

pub data PagingResult {ℓ} (A : Type ℓ) : Type ℓ where
  ok : A → PagingResult A
  err : PagingError → PagingResult A

pub data PageSize : Type 0 where
  size_4k size_1m size_2m size_1g : PageSize

-- `size as usize`
abbrev pub size_of : PageSize → ℕ
size_of size_4k = 0x1000
size_of size_1m = 0x10_0000
size_of size_2m = 0x20_0000
size_of size_1g = 0x4000_0000

abbrev pub is_huge_size : PageSize → Bool
is_huge_size size_4k = false
is_huge_size size_1m = true
is_huge_size size_2m = true
is_huge_size size_1g = true

abbrev pub page_size_eq : PageSize → PageSize → Bool
page_size_eq size_4k size_4k = true
page_size_eq size_1m size_1m = true
page_size_eq size_2m size_2m = true
page_size_eq size_1g size_1g = true
page_size_eq _ _ = false

-- `PageSize::is_aligned` and `PageSize::align_offset`
abbrev pub is_aligned : MemoryAddr → PageSize → ℕ → Bool
is_aligned m size a = m.is_aligned a (size_of size)

abbrev pub align_offset : MemoryAddr → PageSize → ℕ → ℕ
align_offset m size a = m.align_offset a (size_of size)

-- `flush_tlb` reaches the hardware: its calls are recorded in the world.
pub record PagingMetaData : Type 0 where
  pub levels : ℕ
  pub pa_max_bits : ℕ
  pub va_max_bits : ℕ
  pub vaddr_is_valid : ℕ → Bool

-- The provided constant and methods of the trait.
abbrev pub pa_max_addr : PagingMetaData → ℕ
pa_max_addr m = 2 ^ m.pa_max_bits - 1

unfoldable pub paddr_is_valid : PagingMetaData → ℕ → Bool
paddr_is_valid m a = leb a (pa_max_addr m)

unfoldable pub default_vaddr_is_valid : (va_max_bits a : ℕ) → Bool
default_vaddr_is_valid va_max_bits a =
    let top_mask = (2 ^ 64 - 1) * 2 ^ (va_max_bits - 1) % 2 ^ 64 in
    bit_and a top_mask == 0 || bit_and a top_mask == top_mask

-- The operating system's side, over a state of its own. The two methods on one frame may be the
-- defaults below. `phys_to_virt` gives the window through which a
-- frame is read and written: the model's memory is indexed by the frame itself.
pub record PagingHandler (S : Type 0) : Type 0 where
  pub alloc_frame : S → Option ℕ × S
  pub alloc_frames : (num align : ℕ) → S → Option ℕ × S
  pub dealloc_frame : ℕ → S → S
  pub dealloc_frames : ℕ → (num : ℕ) → S → S

abbrev pub page_size_4k : ℕ
page_size_4k = 0x1000

-- The default methods of the trait, on an implementation's `alloc_frames` and `dealloc_frames`.
abbrev pub default_alloc_frame {ℓ} : {A : Type ℓ} → ((num align : ℕ) → A) → A
default_alloc_frame alloc_frames = alloc_frames 1 page_size_4k

abbrev pub default_dealloc_frame {ℓ} : {A : Type ℓ} → (ℕ → (num : ℕ) → A) → ℕ → A
default_dealloc_frame dealloc_frames paddr = dealloc_frames paddr 1

abbrev pub small_flush_threshold : ℕ
small_flush_threshold = 32

pub data TlbFlusher (V : Type 0) : Type 0 where
  idle : TlbFlusher V
  array : V → TlbFlusher V
  full : TlbFlusher V

-- The generic parameters `M`, `PTE` and `H`, and the crates that the tables call.
pub record Platform (S V B : Type 0) : Type 0 where
  pub meta : PagingMetaData
  pub pte : GenericPte
  pub handler : PagingHandler S
  pub addr : MemoryAddr
  pub vec : ArrayVec V
  pub bitmap : Bitmap B

-- Memory as page tables see it (the entry at an index of the table in a frame), the state of the
-- operating system, and the TLB flushes so far, oldest first.
pub record World (S : Type 0) : Type 0 where
  pub mem : (frame index : ℕ) → ℕ
  pub os : S
  pub tlb : List (Option ℕ)
