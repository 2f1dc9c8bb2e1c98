-- ===== src/Tests/Holes.antt =====
-- What the operations make of addresses that are not mapped, by entry format.
use page_table_multiarch.Common.{
  ℕ, ◌≡◌, refl, Bool, true, false, List, [], Option, none, some, length,
}
use page_table_multiarch.Paging.{PagingResult, ok, err, size_4k, size_1g, not_mapped, Platform}
use page_table_multiarch.Paging.Run.{Run, done, panic, out_of_fuel}
use page_table_multiarch.Entry.Words.{documented}
use page_table_multiarch.Entry.A64.{a64_pte}
use page_table_multiarch.Entry.La64.{la64_pte}
use page_table_multiarch.Entry.X64.{x64_pte}
use page_table_multiarch.Table64.Cursor.{map, remap}
use page_table_multiarch.Table64.Region.{protect_region}
use page_table_multiarch.Table64.Walk.{walk}
use page_table_multiarch.Tests.Machine.{machine, start}
use page_table_multiarch.Tests.Mappings.{Machine, after}

abbrev a64_machine : Platform ℕ (List ℕ) (ℕ → Bool)
a64_machine = record machine { pte = a64_pte documented }

abbrev la64_machine : Platform ℕ (List ℕ) (ℕ → Bool)
la64_machine = record machine { pte = la64_pte documented }

-- the result of a run
abbrev result : {A : Type 0} → Run Machine A → Option (PagingResult A)
result (done r s) = some r
result panic = none
result out_of_fuel = none

-- one 4K page at 0, with the flags read and write
abbrev page_at_zero : Platform ℕ (List ℕ) (ℕ → Bool) → Machine
page_at_zero e = after start (map e 0 0x5000 size_4k 3 start)

-- On x86_64, `remap` in the second gigabyte finds no table.
x64_remap-hole :
    result (remap machine 0x4000_1000 0x8000 3 (page_at_zero machine)) ≡ some (err not_mapped)
unfolding map remap x64_pte
x64_remap-hole = refl

-- On AArch64 the zero entry there counts as a block: `remap` succeeds with the size of 1G.
a64_remap-hole :
    result (remap a64_machine 0x4000_1000 0x8000 3 (page_at_zero a64_machine)) ≡ some (ok size_1g)
unfolding map remap a64_pte
a64_remap-hole = refl

-- On x86_64, `protect_region` passes over a hole.
x64_protect-hole :
    result (protect_region machine 0x4000_1000 0x1000 1 (page_at_zero machine)) ≡ some (ok tt)
unfolding map protect_region x64_pte
x64_protect-hole = refl

-- On AArch64 it panics: the hole counts as one of 1G, to which the address is not aligned.
a64_protect-hole :
    protect_region a64_machine 0x4000_1000 0x1000 1 (page_at_zero a64_machine) ≡ panic
unfolding map protect_region a64_pte
a64_protect-hole = refl

-- A walk on x86_64 visits the entries of the page's four levels.
x64_walk :
    length
      (walk machine (page_at_zero machine).cursor.inner (page_at_zero machine).world 512 true false)
    ≡ 4
unfolding map walk x64_pte
x64_walk = refl

-- On LoongArch64 it visits none: an entry that points to a table is not present.
la64_walk :
    walk la64_machine
      (page_at_zero la64_machine).cursor.inner
      (page_at_zero la64_machine).world
      512
      true
      false
    ≡ []
unfolding map walk la64_pte
la64_walk = refl

-- With the limit 0, each table on the way still has one visit.
x64_walk-zero :
    length
      (walk machine (page_at_zero machine).cursor.inner (page_at_zero machine).world 0 true false)
    ≡ 4
unfolding map walk x64_pte
x64_walk-zero = refl
