-- ===== src/Tests/Mappings32.antt =====
-- The operations of two-level tables and their theorems on a concrete platform.
use page_table_multiarch.Common.{ℕ, ◌≡◌, refl, true, List, [], arith}
use page_table_multiarch.Paging.{ok, PageSize, size_4k, size_1m}
use page_table_multiarch.Paging.Run.{Run, done, panic, out_of_fuel}
use page_table_multiarch.Entry.A32.{a32_pte}
use page_table_multiarch.Table32.Defs.{query, try_new}
use page_table_multiarch.Table32.Answer.{first, second, answer, translated, query_lem32}
use page_table_multiarch.Table32.Placed.{Owners, page}
use page_table_multiarch.Table32.Session.{IsSession}
use page_table_multiarch.Table32.Mapped.{
  is_4k, is_1m, Mapped, mapped, no_frame, in_use, page_word, map-Mapped32,
}
use page_table_multiarch.Table32.Unmapped.{Unmapped, unmap-Unmapped32}
use page_table_multiarch.Table32.Protected.{Protected, protect-Protected32}
use page_table_multiarch.Table32.Remapped.{Remapped, remap-Remapped32}
use page_table_multiarch.Table32.Queries.{Refusal, map-Refusal, Undone, map-query32, unmap-map32}
use page_table_multiarch.Table32.New.{no_owner, Made, try_new-Founded}
use page_table_multiarch.Table32.Cursor.{Session, map, unmap, protect, remap}
use page_table_multiarch.Tests.Machine32.{
  machine32, machine32-IsPlatform, start32, start32-IsSession,
}

abbrev pub Machine32 : Type 0
Machine32 = Session ℕ (List ℕ)

-- the state that a run ends in
abbrev pub after32 : {A : Type 0} → Machine32 → Run Machine32 A → Machine32
after32 s (done r s') = s'
after32 s panic = s
after32 s out_of_fuel = s

-- Flags 3: read and write.
unfoldable pub small_page32 : Machine32
small_page32 = after32 start32 (map machine32 0xc012_3678 0x4567_8abc size_4k 3 start32)

pub small_page32-map :
    map machine32 0xc012_3678 0x4567_8abc size_4k 3 start32 ≡ done (ok tt) small_page32
unfolding small_page32 map a32_pte
small_page32-map = refl

-- The flags of a small page do not read back: the entry is read as that of a section.
small_page32-query :
    query machine32 small_page32.cursor.inner 0xc012_3012 small_page32.memory
    ≡ done (ok (0x4567_8012, 1, size_4k)) small_page32.memory
unfolding small_page32 map query a32_pte
small_page32-query = refl

-- Flags 7: read, write and execute. The frame of an executable small page is cut to 1M.
unfoldable code_page32 : Machine32
code_page32 = after32 start32 (map machine32 0xc012_3000 0x4567_8000 size_4k 7 start32)

code_page32-query :
    query machine32 code_page32.cursor.inner 0xc012_3012 code_page32.memory
    ≡ done (ok (0x4560_0012, 1, size_4k)) code_page32.memory
unfolding code_page32 map query a32_pte
code_page32-query = refl

unfoldable section32 : Machine32
section32 = after32 start32 (map machine32 0xc000_0000 0x4560_0000 size_1m 3 start32)

section32-map : map machine32 0xc000_0000 0x4560_0000 size_1m 3 start32 ≡ done (ok tt) section32
unfolding section32 map a32_pte
section32-map = refl

section32-query :
    query machine32 section32.cursor.inner 0xc00a_bcde section32.memory
    ≡ done (ok (0x456a_bcde, 3, size_1m)) section32.memory
unfolding section32 map query a32_pte
section32-query = refl

owned :
    {size : PageSize} {v word : ℕ} {r : Run Machine32 (Unit {0})}
    → Mapped machine32-IsPlatform no_owner start32 size v word r
    → (owner : Owners) × IsSession machine32-IsPlatform owner (after32 start32 r)
owned (mapped owner free c) = (owner, c.session)
owned (no_frame small failed free u) = (no_owner, u.session)
owned (in_use used answered u) = (no_owner, u.session)

pub small_page32-owned : (owner : Owners) × IsSession machine32-IsPlatform owner small_page32
unfolding small_page32 machine32-IsPlatform
small_page32-owned = owned (
    map-Mapped32 machine32-IsPlatform start32 0xc012_3678 0x4567_8abc 3 is_4k (omega arith) refl
      start32-IsSession)

map-Mapped32_example :
    Mapped machine32-IsPlatform no_owner start32 size_4k 0xc012_3678
      (page_word machine32-IsPlatform 0x4567_8abc size_4k 3)
      (map machine32 0xc012_3678 0x4567_8abc size_4k 3 start32)
unfolding machine32-IsPlatform
map-Mapped32_example =
    map-Mapped32 machine32-IsPlatform start32 0xc012_3678 0x4567_8abc 3 is_4k (omega arith) refl
      start32-IsSession

map-Refusal_example :
    Refusal machine32-IsPlatform small_page32-owned.0 small_page32
      (map machine32 0xc012_3000 0x8000_0000 size_1m 3 small_page32)
unfolding machine32-IsPlatform small_page32 map a32_pte answer first second
map-Refusal_example =
    map-Refusal machine32-IsPlatform small_page32 0xc012_3000 0x8000_0000 3 _ is_1m (omega arith)
      refl small_page32-owned.1 refl

query_lem32_example :
    query machine32 small_page32.cursor.inner 0xc012_3012 small_page32.memory
    ≡ done
        (translated machine32 0xc012_3012 (
          answer machine32 small_page32.memory.words small_page32.cursor.inner.root_paddr
            0xc012_3012))
        small_page32.memory
query_lem32_example =
    query_lem32 machine32 small_page32.cursor.inner 0xc012_3012 small_page32.memory

map-query32_example :
    (flags : ℕ) × (query machine32 section32.cursor.inner 0xc00a_bcde section32.memory
      ≡ done (ok (0x456a_bcde, flags, size_1m)) section32.memory)
    × (true ≡ true → flags ≡ 3)
unfolding machine32-IsPlatform page
map-query32_example =
    map-query32 machine32-IsPlatform start32 section32 0xc000_0000 0x4560_0000 size_1m 3 is_1m
      (omega arith) refl start32-IsSession section32-map refl 0xc00a_bcde refl

unmap-map32_example :
    Undone machine32-IsPlatform start32 small_page32
      (page_word machine32-IsPlatform 0x4567_8abc size_4k 3)
      size_4k
      0xc012_3012
unfolding machine32-IsPlatform page
unmap-map32_example =
    unmap-map32 machine32-IsPlatform start32 small_page32 0xc012_3678 0x4567_8abc size_4k 3 is_4k
      (omega arith) refl start32-IsSession small_page32-map 0xc012_3012 refl

unmap-Unmapped32_example :
    Unmapped machine32-IsPlatform small_page32-owned.0 small_page32 0xc012_3678
      (unmap machine32 0xc012_3678 small_page32)
unmap-Unmapped32_example =
    unmap-Unmapped32 machine32-IsPlatform small_page32 0xc012_3678 small_page32-owned.1

protect-Protected32_example :
    Protected machine32-IsPlatform small_page32-owned.0 small_page32 0xc012_3678 1
      (protect machine32 0xc012_3678 1 small_page32)
unfolding machine32-IsPlatform
protect-Protected32_example =
    protect-Protected32 machine32-IsPlatform small_page32 0xc012_3678 1 (omega arith) refl
      small_page32-owned.1

remap-Remapped32_example :
    Remapped machine32-IsPlatform small_page32-owned.0 small_page32 0xc012_3678 0x8000 1
      (remap machine32 0xc012_3678 0x8000 1 small_page32)
unfolding machine32-IsPlatform
remap-Remapped32_example =
    remap-Remapped32 machine32-IsPlatform small_page32 0xc012_3678 0x8000 1 (omega arith) refl
      small_page32-owned.1

try_new-Founded_example :
    Made machine32-IsPlatform
      (record { words = λ p. 7; os = 1; tlb = [] })
      (try_new machine32 (record { words = λ p. 7; os = 1; tlb = [] }))
try_new-Founded_example =
    try_new-Founded machine32-IsPlatform (record { words = λ p. 7; os = 1; tlb = [] })
