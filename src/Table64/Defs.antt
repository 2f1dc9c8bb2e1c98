-- ===== src/Table64/Defs.antt =====
-- bits64.rs: indices, `PageTable64`, table allocation, and the descent to an entry. A reference to
-- an entry is its place, a frame and an index; a reference to a table is its frame.
use page_table_multiarch.Common.{ℕ, ◌+◌, ◌-◌, ◌/◌, ◌^◌, bit_and, none, some, ◌==◌, if◌then◌else◌}
use page_table_multiarch.Paging.{
  PagingResult, ok, err, PageSize, size_4k, size_2m, size_1g, page_size_eq, Platform, World,
  no_memory, not_mapped, mapped_to_huge_page, align_offset,
}
use page_table_multiarch.Paging.Run.{Cmd, pure, throw, unreachable, lift, ◌>>=◌, ◌>>◌}

abbrev pub entry_count : ℕ
entry_count = 512

unfoldable pub p4_index : ℕ → ℕ
p4_index vaddr = bit_and (vaddr / 2 ^ (12 + 27)) (entry_count - 1)

unfoldable pub p3_index : ℕ → ℕ
p3_index vaddr = bit_and (vaddr / 2 ^ (12 + 18)) (entry_count - 1)

unfoldable pub p2_index : ℕ → ℕ
p2_index vaddr = bit_and (vaddr / 2 ^ (12 + 9)) (entry_count - 1)

unfoldable pub p1_index : ℕ → ℕ
p1_index vaddr = bit_and (vaddr / 2 ^ 12) (entry_count - 1)

pub record PageTable64 (B : Type 0) : Type 0 where
  pub root_paddr : ℕ
  pub borrowed_entries : B

-- The place of an entry: `table_of(frame)[index]`.
pub record Slot : Type 0 where
  pub frame : ℕ
  pub index : ℕ

abbrev pub slot : ℕ → ℕ → Slot
slot p i = record { frame = p; index = i }

-- `*entry = word`
abbrev pub store : (ℕ → ℕ → ℕ) → Slot → ℕ → ℕ → ℕ → ℕ
store mem s word p i = if p == s.frame then (if i == s.index then word else mem p i) else mem p i

-- `write_bytes` over a frame: all its entries are zero
abbrev pub zeroed : (ℕ → ℕ → ℕ) → ℕ → ℕ → ℕ → ℕ
zeroed mem q p i = if p == q then 0 else mem p i

module _ {S V B : Type 0} (e : Platform S V B) where
  open e use {meta, pte, handler}

  abbrev pub read : Slot → Cmd (World S) ℕ
  read s w = pure (w.mem s.frame s.index) w

  abbrev pub write : Slot → ℕ → Cmd (World S) (Unit {0})
  write s word w = pure tt (record w { mem = store w.mem s word })

  unfoldable pub alloc_table : Cmd (World S) ℕ
  alloc_table w =
      let (frame, os') = handler.alloc_frame w.os in
      elim frame [
        | none ↦ throw no_memory (record w { os = os' })
        | some paddr ↦ pure paddr (record w { os = os'; mem = zeroed w.mem paddr })
      ]

  unfoldable pub try_new : Cmd (World S) (PageTable64 B)
  unfolding alloc_table
  try_new = do
    root_paddr ← alloc_table
    pure (record { root_paddr = root_paddr; borrowed_entries = e.bitmap.new })

  unfoldable pub next_table : ℕ → PagingResult ℕ
  next_table entry =
      if pte.paddr entry == 0
      then err not_mapped
      else if pte.is_huge entry
      then err mapped_to_huge_page
      else ok (pte.paddr entry)

  unfoldable pub next_table_mut : ℕ → PagingResult ℕ
  next_table_mut entry =
      if pte.paddr entry == 0
      then err not_mapped
      else if pte.is_huge entry
      then err mapped_to_huge_page
      else ok (pte.paddr entry)

  unfoldable pub next_table_mut_or_create : Slot → Cmd (World S) ℕ
  unfolding alloc_table next_table_mut
  next_table_mut_or_create s = do
    entry ← read s
    if pte.is_unused entry
        then (do paddr ← alloc_table; write s (pte.new_table paddr); pure paddr)
        else lift (next_table_mut entry)

  unfoldable pub get_entry : PageTable64 B → ℕ → Cmd (World S) (ℕ × PageSize)
  unfolding next_table p4_index p3_index p2_index p1_index
  get_entry t vaddr = do
    p3 ←
        if meta.levels == 3
        then pure t.root_paddr
        else if meta.levels == 4
        then (do p4e ← read (slot t.root_paddr (p4_index vaddr)); lift (next_table p4e))
        else unreachable
    p3e ← read (slot p3 (p3_index vaddr))
    if pte.is_huge p3e then pure (p3e, size_1g) else do
      p2 ← lift (next_table p3e)
      p2e ← read (slot p2 (p2_index vaddr))
      if pte.is_huge p2e then pure (p2e, size_2m) else do
        p1 ← lift (next_table p2e)
        p1e ← read (slot p1 (p1_index vaddr))
        pure (p1e, size_4k)

  unfoldable pub get_entry_mut : PageTable64 B → ℕ → Cmd (World S) (Slot × PageSize)
  unfolding next_table_mut p4_index p3_index p2_index p1_index
  get_entry_mut t vaddr = do
    p3 ←
        if meta.levels == 3
        then pure t.root_paddr
        else if meta.levels == 4
        then (do p4e ← read (slot t.root_paddr (p4_index vaddr)); lift (next_table_mut p4e))
        else unreachable
    p3e ← read (slot p3 (p3_index vaddr))
    if pte.is_huge p3e then pure (slot p3 (p3_index vaddr), size_1g) else do
      p2 ← lift (next_table_mut p3e)
      p2e ← read (slot p2 (p2_index vaddr))
      if pte.is_huge p2e
          then pure (slot p2 (p2_index vaddr), size_2m)
          else do p1 ← lift (next_table_mut p2e); pure (slot p1 (p1_index vaddr), size_4k)

  unfoldable pub get_entry_mut_or_create : PageTable64 B → ℕ → PageSize → Cmd (World S) Slot
  unfolding next_table_mut_or_create p4_index p3_index p2_index p1_index
  get_entry_mut_or_create t vaddr page_size = do
    p3 ←
        if meta.levels == 3
        then pure t.root_paddr
        else if meta.levels == 4
        then next_table_mut_or_create (slot t.root_paddr (p4_index vaddr))
        else unreachable
    if page_size_eq page_size size_1g then pure (slot p3 (p3_index vaddr)) else do
      p2 ← next_table_mut_or_create (slot p3 (p3_index vaddr))
      if page_size_eq page_size size_2m then pure (slot p2 (p2_index vaddr)) else do
        p1 ← next_table_mut_or_create (slot p2 (p2_index vaddr))
        pure (slot p1 (p1_index vaddr))

  unfoldable pub query : PageTable64 B → ℕ → Cmd (World S) (ℕ × ℕ × PageSize)
  unfolding get_entry
  query t vaddr = do
    (entry, size) ← get_entry t vaddr
    if pte.is_present entry
        then pure
            (e.addr.add (pte.paddr entry) (align_offset e.addr size vaddr), pte.flags entry, size)
        else throw not_mapped
