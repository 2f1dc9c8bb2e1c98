-- ===== src/Tests/Copying.antt =====
-- `copy_from` on the concrete platform: an empty table is copied over one that maps a page.
use page_table_multiarch.Common.{ℕ, ◌≡◌, refl, Bool, false, none, arith}
use page_table_multiarch.Paging.{ok, size_4k}
use page_table_multiarch.Paging.Run.{Run, done}
use page_table_multiarch.Entry.X64.{x64_pte}
use page_table_multiarch.Table64.Defs.{PageTable64}
use page_table_multiarch.Table64.Placed.{Placement}
use page_table_multiarch.Table64.Create.{IsTable}
use page_table_multiarch.Table64.Cursor.{map}
use page_table_multiarch.Table64.Copy.{copy_from}
use page_table_multiarch.Table64.CopyFrom.{CopiesFrom, copy_from-CopiesFrom}
use page_table_multiarch.Table64.Mapped.{IsSession, Mapped, mapped, failed, map-Mapped}
use page_table_multiarch.Table64.New.{at_root, zeroed-IsTable}
use page_table_multiarch.Tests.Machine.{machine, machine-IsPlatform, start}
use page_table_multiarch.Tests.Mappings.{Machine, after}

-- Frames 1 and 2 are roots.
abbrev two_roots : Machine
two_roots = record start { world = record start.world { os = 3 } }

two_roots-IsSession : IsSession machine-IsPlatform (at_root machine-IsPlatform 4096) two_roots
unfolding machine-IsPlatform
two_roots-IsSession = zeroed-IsTable machine-IsPlatform two_roots.world 4096 (λ i. refl) refl

unfoldable one_mapped : Machine
one_mapped = after two_roots (map machine 0x7fff_1234_5678 0x1234_5678 size_4k 3 two_roots)

after_map :
    {h v word : ℕ} {r : Run Machine (Unit {0})}
    → Mapped machine-IsPlatform two_roots h v word r
    → (place : Placement) × IsSession machine-IsPlatform place (after two_roots r)
after_map (mapped place free c) = (place, c.session)
after_map (failed place u) = (place, u.session)

one_mapped-IsSession : (place : Placement) × IsSession machine-IsPlatform place one_mapped
unfolding one_mapped machine-IsPlatform
one_mapped-IsSession = after_map (
    map-Mapped machine-IsPlatform two_roots 0x7fff_1234_5678 0x1234_5678 size_4k 3 (omega arith)
      refl two_roots-IsSession)

abbrev blank : PageTable64 (ℕ → Bool)
blank = record { root_paddr = 8192; borrowed_entries = λ i. false }

blank-IsTable : IsTable machine-IsPlatform 8192 (at_root machine-IsPlatform 8192) one_mapped.world
unfolding one_mapped machine-IsPlatform map x64_pte
blank-IsTable = zeroed-IsTable machine-IsPlatform one_mapped.world 8192 (λ i. refl) refl

apart : at_root machine-IsPlatform 8192 one_mapped.cursor.inner.root_paddr ≡ none
unfolding one_mapped map x64_pte
apart = refl

copy_from-CopiesFrom_example :
    (s' : Machine) × (copy_from machine blank 0x7f80_0000_0000 0x1000 one_mapped ≡ done (ok tt) s')
    × CopiesFrom machine-IsPlatform one_mapped s' 8192 0x7f80_0000_0000 0x1000
copy_from-CopiesFrom_example =
    copy_from-CopiesFrom machine-IsPlatform one_mapped blank 0x7f80_0000_0000 0x1000
      one_mapped-IsSession.0 (at_root machine-IsPlatform 8192) one_mapped-IsSession.1 blank-IsTable
      apart (omega arith) (omega arith)
