-- ===== src/Paging/Arch.antt =====
-- page_table_multiarch/src/arch: the metadata of the architectures. `flush_tlb`, which
-- is an instruction or a call of a crate, is not part of it.
use page_table_multiarch.Common.{
  ℕ, suc, ◌+◌, ◌-◌, ◌*◌, ◌/◌, ◌^◌, ◌<◌, bit_or, ◌≡◌, refl, Bool, true, ◌||◌, ◌==◌, leb, arith,
}
use page_table_multiarch.Bits.{bit_and_shifted, bit_and_low}
use page_table_multiarch.Paging.{PagingMetaData, default_vaddr_is_valid}

abbrev pub x64_meta : PagingMetaData
x64_meta = record {
  levels = 4;
  pa_max_bits = 52;
  va_max_bits = 48;
  vaddr_is_valid = default_vaddr_is_valid 48;
}

unfoldable pub a64_vaddr_is_valid : ℕ → Bool
a64_vaddr_is_valid vaddr = let top_bits = vaddr / 2 ^ 48 in top_bits == 0 || top_bits == 0xffff

abbrev pub a64_meta : PagingMetaData
a64_meta = record {
  levels = 4;
  pa_max_bits = 48;
  va_max_bits = 48;
  vaddr_is_valid = a64_vaddr_is_valid;
}

abbrev pub sv39_meta : PagingMetaData
sv39_meta = record {
  levels = 3;
  pa_max_bits = 56;
  va_max_bits = 39;
  vaddr_is_valid = default_vaddr_is_valid 39;
}

abbrev pub sv48_meta : PagingMetaData
sv48_meta = record {
  levels = 4;
  pa_max_bits = 56;
  va_max_bits = 48;
  vaddr_is_valid = default_vaddr_is_valid 48;
}

abbrev pub la64_meta : PagingMetaData
la64_meta = record {
  levels = 4;
  pa_max_bits = 48;
  va_max_bits = 48;
  vaddr_is_valid = default_vaddr_is_valid 48;
}

abbrev pub a32_meta : PagingMetaData
a32_meta = record { levels = 2; pa_max_bits = 32; va_max_bits = 32; vaddr_is_valid = λ _. true }

-- the words of the page walk controller
unfoldable pub pwcl_value : ℕ
pwcl_value =
    bit_or
      (bit_or (bit_or (bit_or (bit_or 12 (9 * 2 ^ 5)) (21 * 2 ^ 10)) (9 * 2 ^ 15)) (30 * 2 ^ 20))
      (9 * 2 ^ 25)

unfoldable pub pwch_value : ℕ
pwch_value = bit_or 39 (9 * 2 ^ 6)

-- The sign extensions of numbers of so many bits.
abbrev pub is_canonical : (bits a : ℕ) → Bool
is_canonical bits a = leb (suc a) (2 ^ (bits - 1)) || leb (2 ^ 64 - 2 ^ (bits - 1)) a

default-39 : (a : ℕ) → a < 2 ^ 64 → default_vaddr_is_valid 39 a ≡ is_canonical 39 a
unfolding default_vaddr_is_valid
default-39 a small = ground (arith, bit_and_shifted 38 a (2 ^ 26 - 1), bit_and_low 26 (a / 2 ^ 38))

default-48 : (a : ℕ) → a < 2 ^ 64 → default_vaddr_is_valid 48 a ≡ is_canonical 48 a
unfolding default_vaddr_is_valid
default-48 a small = ground (arith, bit_and_shifted 47 a (2 ^ 17 - 1), bit_and_low 17 (a / 2 ^ 47))

a64-49 : (a : ℕ) → a < 2 ^ 64 → a64_vaddr_is_valid a ≡ is_canonical 49 a
unfolding a64_vaddr_is_valid
a64-49 a small = ground arith

-- Of the virtual addresses of 64 bits, x86_64, RISC-V (Sv39 and Sv48) and LoongArch64 accept just
-- the sign extensions of addresses of `VA_MAX_BITS` bits. AArch64 accepts just the addresses whose
-- bits above `VA_MAX_BITS` are all equal, without regard to the bit below them: these are the sign
-- extensions of one bit more. ARMv7-A accepts every address.
pub vaddr_is_valid_lem :
    (a : ℕ)
    → a < 2 ^ 64
    → (x64_meta.vaddr_is_valid a ≡ is_canonical x64_meta.va_max_bits a)
      × (sv39_meta.vaddr_is_valid a ≡ is_canonical sv39_meta.va_max_bits a)
      × (sv48_meta.vaddr_is_valid a ≡ is_canonical sv48_meta.va_max_bits a)
      × (la64_meta.vaddr_is_valid a ≡ is_canonical la64_meta.va_max_bits a)
      × (a64_meta.vaddr_is_valid a ≡ is_canonical (a64_meta.va_max_bits + 1) a)
      × (a32_meta.vaddr_is_valid a ≡ true)
vaddr_is_valid_lem a small = (
  default-48 a small,
  default-39 a small,
  default-48 a small,
  default-48 a small,
  a64-49 a small,
  refl,
)
