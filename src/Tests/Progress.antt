-- ===== src/Tests/Progress.antt =====
-- That operations get on, on the concrete platform.
use page_table_multiarch.Common.{ℕ, ◌≡◌, refl, [], ◌∷◌, true, ◌||◌, ◌==◌, if◌then◌else◌, arith}
use page_table_multiarch.Entry.X64.{x64_pte}
use page_table_multiarch.Paging.{ok, size_2m, World}
use page_table_multiarch.Paging.Run.{done}
use page_table_multiarch.Table64.Cursor.{map}
use page_table_multiarch.Table64.Walk.{walk_recursive}
use page_table_multiarch.Table64.WalkLimit.{pre_indices, walk_recursive_limit}
use page_table_multiarch.Table64.Progress.{Supplies, no_table, map_succeeds}
use page_table_multiarch.Tests.Machine.{machine, machine-IsPlatform, start, start-IsSession}
use page_table_multiarch.Tests.Mappings.{Machine}

start-Supplies : Supplies machine-IsPlatform 3 2
start-Supplies = (λ same. absurd cc, (λ same. absurd cc, (λ same. absurd cc, tt)))

map_succeeds_example :
    (s' : Machine) × (map machine 0x4020_0000 0x8000_0000 size_2m 3 start ≡ done (ok tt) s')
map_succeeds_example =
    map_succeeds machine-IsPlatform start 0x4020_0000 0x8000_0000 size_2m 3 start-Supplies
      start-IsSession (no_table (omega arith) refl)

-- Three present entries in each table, and a limit of two.
abbrev three_each : World ℕ
three_each = record start.world { mem = λ p i. if (i == 3) || (i == 5) || (i == 8) then 1 else 0 }

walk_recursive_limit_example :
    pre_indices 0 (walk_recursive machine 4 three_each 4096 0 0 2 true true) ≡ 3 ∷ 5 ∷ []
unfolding x64_pte
walk_recursive_limit_example = walk_recursive_limit machine three_each 2 true 3 4096 0 0
