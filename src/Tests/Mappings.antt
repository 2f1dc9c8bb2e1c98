-- ===== src/Tests/Mappings.antt =====
-- The page table operations and their theorems on a concrete platform.
use page_table_multiarch.Common.{ℕ, ◌≡◌, refl, inr, Bool, true, List, [], arith}
use page_table_multiarch.Paging.{ok, size_4k, size_2m, idle}
use page_table_multiarch.Paging.Run.{Run, done, panic, out_of_fuel}
use page_table_multiarch.Entry.X64.{x64_pte}
use page_table_multiarch.Table64.Defs.{query, try_new, get_entry_mut_or_create}
use page_table_multiarch.Table64.Height.{page, route, index_at, page_number}
use page_table_multiarch.Table64.Answer.{answer, map_ok, translation, query_lem}
use page_table_multiarch.Table64.Placed.{Placement}
use page_table_multiarch.Table64.Descend.{Created, get_entry_mut_or_create-Created}
use page_table_multiarch.Table64.Cursor.{Session, map, unmap, protect, remap, push, flush}
use page_table_multiarch.Paging.Flusher.{flushes}
use page_table_multiarch.Table64.Flush.{asked, flush-push}
use page_table_multiarch.Table64.Mapped.{IsSession, Mapped, mapped, failed, page_word, map-Mapped}
use page_table_multiarch.Table64.Unmapped.{Unmapped, unmap-Unmapped}
use page_table_multiarch.Table64.Protected.{Protected, protect-Protected}
use page_table_multiarch.Table64.Remapped.{Remapped, remap-Remapped}
use page_table_multiarch.Table64.Queries.{queried, map-query, Undone, unmap-map}
use page_table_multiarch.Table64.New.{at_root, Made, try_new-Made}
use page_table_multiarch.Tests.Machine.{machine, machine-IsPlatform, start, start-IsSession}

abbrev pub Machine : Type 0
Machine = Session ℕ (List ℕ) (ℕ → Bool)

-- the state that a run ends in
abbrev pub after : {A : Type 0} → Machine → Run Machine A → Machine
after s (done r s') = s'
after s panic = s
after s out_of_fuel = s

-- Flags 3: read and write.
unfoldable one_page : Machine
one_page = after start (map machine 0x7fff_1234_5678 0x1234_5678 size_4k 3 start)

one_page-map : map machine 0x7fff_1234_5678 0x1234_5678 size_4k 3 start ≡ done (ok tt) one_page
unfolding one_page map x64_pte
one_page-map = refl

one_page-query :
    query machine one_page.cursor.inner 0x7fff_1234_5abc one_page.world
    ≡ done (ok (0x1234_5abc, 3, size_4k)) one_page.world
unfolding one_page map query x64_pte
one_page-query = refl

placed :
    {h v word : ℕ} {r : Run Machine (Unit {0})}
    → Mapped machine-IsPlatform start h v word r
    → (place : Placement) × IsSession machine-IsPlatform place (after start r)
placed (mapped place free c) = (place, c.session)
placed (failed place u) = (place, u.session)

one_page-placed : (place : Placement) × IsSession machine-IsPlatform place one_page
unfolding one_page machine-IsPlatform
one_page-placed = placed (
    map-Mapped machine-IsPlatform start 0x7fff_1234_5678 0x1234_5678 size_4k 3 (omega arith) refl
      start-IsSession)

map-Mapped_example :
    Mapped machine-IsPlatform start 0 0x7fff_1234_5678
      (page_word machine-IsPlatform 0x1234_5678 size_4k 3)
      (map machine 0x7fff_1234_5678 0x1234_5678 size_4k 3 start)
unfolding machine-IsPlatform
map-Mapped_example =
    map-Mapped machine-IsPlatform start 0x7fff_1234_5678 0x1234_5678 size_4k 3 (omega arith) refl
      start-IsSession

map-query_example :
    query machine one_page.cursor.inner 0x7fff_1234_5abc one_page.world
    ≡ done (ok (queried machine-IsPlatform 0x1234_5678 size_4k 3 0x7fff_1234_5abc)) one_page.world
unfolding machine-IsPlatform page route index_at page_number
map-query_example =
    map-query machine-IsPlatform start one_page 0x7fff_1234_5678 0x1234_5678 size_4k 3 (omega arith)
      refl (at_root machine-IsPlatform 4096) start-IsSession one_page-map 0x7fff_1234_5abc refl

unmap-map_example : Undone machine-IsPlatform start one_page 0x1234_5678 size_4k 3 0x7fff_1234_5abc
unfolding machine-IsPlatform page route index_at page_number
unmap-map_example =
    unmap-map machine-IsPlatform start one_page 0x7fff_1234_5678 0x1234_5678 size_4k 3 (omega arith)
      refl (at_root machine-IsPlatform 4096) start-IsSession one_page-map 0x7fff_1234_5abc refl

unmap-Unmapped_example :
    Unmapped machine-IsPlatform one_page-placed.0 one_page 0x7fff_1234_5678
      (unmap machine 0x7fff_1234_5678 one_page)
unmap-Unmapped_example =
    unmap-Unmapped machine-IsPlatform one_page 0x7fff_1234_5678 one_page-placed.1

protect-Protected_example :
    Protected machine-IsPlatform one_page-placed.0 one_page 0x7fff_1234_5678 1
      (protect machine 0x7fff_1234_5678 1 one_page)
unfolding machine-IsPlatform
protect-Protected_example =
    protect-Protected machine-IsPlatform one_page 0x7fff_1234_5678 1 (omega arith) refl
      one_page-placed.1

remap-Remapped_example :
    Remapped machine-IsPlatform one_page-placed.0 one_page 0x7fff_1234_6678 0x8000 1
      (remap machine 0x7fff_1234_6678 0x8000 1 one_page)
unfolding machine-IsPlatform
remap-Remapped_example =
    remap-Remapped machine-IsPlatform one_page 0x7fff_1234_6678 0x8000 1 (omega arith) refl
      one_page-placed.1

try_new-Made_example :
    Made machine-IsPlatform
      (record { mem = λ p i. 7; os = 1; tlb = [] })
      (try_new machine (record { mem = λ p i. 7; os = 1; tlb = [] }))
try_new-Made_example = try_new-Made machine-IsPlatform (record { mem = λ p i. 7; os = 1; tlb = [] })

query_lem_example :
    query machine one_page.cursor.inner 0x7fff_1234_5abc one_page.world
    ≡ done
        (map_ok
          (translation machine 0x7fff_1234_5abc)
          (answer machine 3 one_page.world.mem one_page.cursor.inner.root_paddr 0x7fff_1234_5abc))
        one_page.world
query_lem_example =
    query_lem machine one_page.cursor.inner 0x7fff_1234_5abc one_page.world (inr refl)

get_entry_mut_or_create-Created_example :
    Created machine-IsPlatform 4096
      (at_root machine-IsPlatform 4096)
      start.world
      1
      0x4020_0000
      3
      4096
      (get_entry_mut_or_create machine start.cursor.inner 0x4020_0000 size_2m start.world)
get_entry_mut_or_create-Created_example =
    get_entry_mut_or_create-Created machine-IsPlatform 4096 start.cursor.inner 0x4020_0000 size_2m
      (at_root machine-IsPlatform 4096) start.world refl start-IsSession

flush-push_example :
    (s' s'' : Machine) × (push machine 0x5000 start ≡ done (ok tt) s')
    × (flush machine s' ≡ done (ok tt) s'')
    × (flushes s''.world.tlb 0x5000 ≡ true)
    × ((u : ℕ)
        → asked machine machine-IsPlatform.bounded start.cursor.flusher u ≡ true
        → flushes s''.world.tlb u ≡ true)
    × (s''.cursor.flusher ≡ idle)
    × (s''.world.mem ≡ start.world.mem)
flush-push_example = flush-push machine machine-IsPlatform.bounded 0x5000 start
