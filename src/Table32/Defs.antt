-- ===== src/Table32/Defs.antt =====
-- bits32.rs for the target ARMv7-A: indices, `PageTable32`, and the descent to an entry. A
-- reference to an entry is its physical address, a reference to a table the address of its first
-- entry. `usize` has 32 bits.
use page_table_multiarch.Common.{
  ℕ, ◌+◌, ◌-◌, ◌*◌, ◌/◌, ◌^◌, bit_and, ◌&&◌, none, some, List, Option, ◌==◌, leb, ltb,
  if◌then◌else◌,
}
use page_table_multiarch.Paging.{
  PageSize, size_4k, size_1m, size_of, page_size_eq, Platform, page_size_4k, no_memory, not_mapped,
  already_mapped,
}
use page_table_multiarch.Paging.Run.{Cmd, pure, throw, ◌>>=◌, ◌>>◌}

abbrev pub entry_count : ℕ
entry_count = 4096

unfoldable pub p1_index : ℕ → ℕ
p1_index vaddr = bit_and (vaddr / 2 ^ 20) 0xFFF

unfoldable pub p2_index : ℕ → ℕ
p2_index vaddr = bit_and (vaddr / 2 ^ 12) 0xFF

-- `borrowed_entries` is the array of 64 words as a function.
pub record PageTable32 : Type 0 where
  pub root_paddr : ℕ
  pub borrowed_entries : ℕ → ℕ

-- The 32-bit words of physical memory by their address, the state of the operating system, and the
-- TLB flushes so far, oldest first. A table is read through a slice of 4096 entries, whatever its
-- level, so that a slice may reach beyond the frame of a table.
pub record Memory (S : Type 0) : Type 0 where
  pub words : (paddr : ℕ) → ℕ
  pub os : S
  pub tlb : List (Option ℕ)

-- `&table[i]` of `get_table` and `get_table_mut`: entries have four bytes
abbrev pub entry_at : (table i : ℕ) → ℕ
entry_at table i = table + 4 * i

-- `*entry = word`
abbrev pub store : (ℕ → ℕ) → ℕ → ℕ → ℕ → ℕ
store words p word a = if a == p then word else words a

-- `write_bytes(p, 0, n)`
abbrev pub zeroed : (ℕ → ℕ) → ℕ → ℕ → ℕ → ℕ
zeroed words p n a = if leb p a && ltb a (p + n) then 0 else words a

abbrev pub l1_size_pages : ℕ
l1_size_pages = 4

abbrev pub l1_align : ℕ
l1_align = 16384

module _ {S V B : Type 0} (e : Platform S V B) where
  open e use {pte, handler}

  abbrev pub read : ℕ → Cmd (Memory S) ℕ
  read p w = pure (w.words p) w

  abbrev pub write : ℕ → ℕ → Cmd (Memory S) (Unit {0})
  write p word w = pure tt (record w { words = store w.words p word })

  unfoldable pub try_new : Cmd (Memory S) PageTable32
  try_new w =
      let (frames, os') = handler.alloc_frames l1_size_pages l1_align w.os in
      elim frames [
        | none ↦ throw no_memory (record w { os = os' })
        | some root_paddr ↦
            pure (record { root_paddr = root_paddr; borrowed_entries = λ _. 0 })
              (record w {
                os = os';
                words = zeroed w.words root_paddr (l1_size_pages * page_size_4k);
              })
      ]

  unfoldable pub get_entry_mut : PageTable32 → ℕ → Cmd (Memory S) (ℕ × PageSize)
  unfolding p1_index p2_index
  get_entry_mut t vaddr = do
    let p1 = entry_at t.root_paddr (p1_index vaddr)
    entry ← read p1
    if pte.is_unused entry
        then throw not_mapped
        else if pte.is_huge entry
        then pure (p1, size_1m)
        else pure (entry_at (pte.paddr entry) (p2_index vaddr), size_4k)

  unfoldable pub get_entry : PageTable32 → ℕ → Cmd (Memory S) (ℕ × PageSize)
  unfolding p1_index p2_index
  get_entry t vaddr = do
    entry ← read (entry_at t.root_paddr (p1_index vaddr))
    if pte.is_unused entry
        then throw not_mapped
        else if pte.is_huge entry
        then pure (entry, size_1m)
        else do
          p2_entry ← read (entry_at (pte.paddr entry) (p2_index vaddr))
          pure (p2_entry, size_4k)

  unfoldable pub query : PageTable32 → ℕ → Cmd (Memory S) (ℕ × ℕ × PageSize)
  unfolding get_entry
  query t vaddr = do
    (entry, size) ← get_entry t vaddr
    if pte.is_unused entry then throw not_mapped else do
      let off = bit_and vaddr (size_of size - 1)
      pure (e.addr.add (pte.paddr entry) off, pte.flags entry, size)

  -- The branch of an unused entry: an L2 table in a frame of its own, of which a quarter is used.
  unfoldable pub create_table : ℕ → Cmd (Memory S) (Unit {0})
  create_table p w =
      let (frame, os') = handler.alloc_frame w.os in
      elim frame [
        | none ↦ throw no_memory (record w { os = os' })
        | some paddr ↦
            write p (pte.new_table paddr)
              (record w { os = os'; words = zeroed w.words paddr page_size_4k })
      ]

  unfoldable pub get_entry_mut_or_create : PageTable32 → ℕ → PageSize → Cmd (Memory S) ℕ
  unfolding p1_index p2_index create_table
  get_entry_mut_or_create t vaddr page_size = do
    let p1 = entry_at t.root_paddr (p1_index vaddr)
    if page_size_eq page_size size_1m then pure p1 else do
      entry ← read p1
      if pte.is_unused entry
          then create_table p1
          else if pte.is_huge entry
          then throw already_mapped
          else pure tt
      entry ← read p1
      pure (entry_at (pte.paddr entry) (p2_index vaddr))
