-- ===== src/Tests/Entries.antt =====
-- The entry formats with the operations of bitflags as documented.
use page_table_multiarch.Common.{◌≡◌, refl, true, arith}
use page_table_multiarch.Entry.Words.{documented}
use page_table_multiarch.Entry.Laws.{IsLawful, IsShort}
use page_table_multiarch.Entry.A32
use page_table_multiarch.Entry.A32.Laws.{a32_pte-IsShort}
use page_table_multiarch.Entry.A32.Layout.{Layout, a32_pte-Layout}
use page_table_multiarch.Entry.A64
use page_table_multiarch.Entry.A64.Laws.{a64_pte-IsLawful}
use page_table_multiarch.Entry.X64
use page_table_multiarch.Entry.X64.Laws.{documented_ptf, x64_pte-IsLawful}
use page_table_multiarch.Entry.Rv64
use page_table_multiarch.Entry.Rv64.Laws.{rv64_pte-IsLawful}
use page_table_multiarch.Entry.La64
use page_table_multiarch.Entry.La64.Laws.{la64_pte-IsLawful}
use page_table_multiarch.Paging.Arch.{
  x64_meta, sv39_meta, sv48_meta, la64_meta, a64_meta, a32_meta, is_canonical, vaddr_is_valid_lem,
}
use page_table_multiarch.Tests.Machine.{documented-IsBitwise}

a64_pte-IsLawful_example : IsLawful (A64.a64_pte documented) 48 A64.Laws.accepts A64.Laws.seen
a64_pte-IsLawful_example = a64_pte-IsLawful documented documented-IsBitwise

a32_pte-IsShort_example :
    IsShort (A32.a32_pte documented) A32.Laws.accepts A32.Laws.exact A32.Laws.shown A32.Laws.seen
a32_pte-IsShort_example = a32_pte-IsShort documented documented-IsBitwise

a32_pte-Layout_example : Layout (A32.a32_pte documented)
a32_pte-Layout_example = a32_pte-Layout documented documented-IsBitwise

x64_pte-IsLawful_example :
    IsLawful (X64.x64_pte documented documented_ptf) 52 X64.Laws.accepts X64.Laws.seen
x64_pte-IsLawful_example = x64_pte-IsLawful documented documented_ptf documented-IsBitwise refl

rv64_pte-IsLawful_example : IsLawful (Rv64.rv64_pte documented) 56 Rv64.Laws.accepts Rv64.Laws.seen
rv64_pte-IsLawful_example = rv64_pte-IsLawful documented documented-IsBitwise

la64_pte-IsLawful_example : IsLawful (La64.la64_pte documented) 48 La64.Laws.accepts La64.Laws.seen
la64_pte-IsLawful_example = la64_pte-IsLawful documented documented-IsBitwise

vaddr_is_valid_lem_example :
    (x64_meta.vaddr_is_valid 0x8000_0000_0000 ≡ is_canonical 48 0x8000_0000_0000)
    × (sv39_meta.vaddr_is_valid 0x8000_0000_0000 ≡ is_canonical 39 0x8000_0000_0000)
    × (sv48_meta.vaddr_is_valid 0x8000_0000_0000 ≡ is_canonical 48 0x8000_0000_0000)
    × (la64_meta.vaddr_is_valid 0x8000_0000_0000 ≡ is_canonical 48 0x8000_0000_0000)
    × (a64_meta.vaddr_is_valid 0x8000_0000_0000 ≡ is_canonical 49 0x8000_0000_0000)
    × (a32_meta.vaddr_is_valid 0x8000_0000_0000 ≡ true)
vaddr_is_valid_lem_example = vaddr_is_valid_lem 0x8000_0000_0000 (omega arith)
