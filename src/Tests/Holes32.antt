-- ===== src/Tests/Holes32.antt =====
-- Inputs on which two-level tables and ARMv7-A entries do something else than one may expect.
use page_table_multiarch.Common.{◌*◌, ◌≡◌, refl, [], ◌∷◌, true, false, if◌then◌else◌, ◌==◌}
use page_table_multiarch.Entry.Words.{documented}
use page_table_multiarch.Entry.A32.{new_page, set_paddr, paddr, a32_pte}
use page_table_multiarch.Paging.{ok, err, size_4k, size_1m, not_mapped}
use page_table_multiarch.Paging.Run.{done}
use page_table_multiarch.Paging.Visit.{pre}
use page_table_multiarch.Table32.Defs.{query}
use page_table_multiarch.Table32.Cursor.{map}
use page_table_multiarch.Table32.Walk.{walk_recursive}
use page_table_multiarch.Tests.Machine32.{machine32, start32}
use page_table_multiarch.Tests.Mappings32.{Machine32, after32}

-- `set_paddr` leaves the entry of a small page that is not executable as it is.
a32_set_paddr-xn :
    set_paddr documented (new_page documented 0x4567_8000 3 false) 0x1234_5000
    ≡ new_page documented 0x4567_8000 3 false
unfolding set_paddr new_page
a32_set_paddr-xn = refl

-- Below 1M an executable small page reads back; a section there gives bits of its attributes.
a32_section-low : paddr documented (new_page documented 0 3 true) ≡ 0x1_1000
unfolding paddr new_page
a32_section-low = refl

-- A section without flags: `map` succeeds, and the entry counts as a link to a table at the address
-- 0, where `query` reads on.
unfoldable bare_section32 : Machine32
bare_section32 = after32 start32 (map machine32 0xc000_0000 0x4560_0000 size_1m 0 start32)

bare_section32-map :
    map machine32 0xc000_0000 0x4560_0000 size_1m 0 start32 ≡ done (ok tt) bare_section32
unfolding bare_section32 map a32_pte
bare_section32-map = refl

bare_section32-query :
    query machine32 bare_section32.cursor.inner 0xc000_0000 bare_section32.memory
    ≡ done (err not_mapped) bare_section32.memory
unfolding bare_section32 map query a32_pte
bare_section32-query = refl

-- One small page, in an L2 table in frame 8, and the word 5 in the next frame.
unfoldable walked32 : Machine32
walked32 =
    let s = after32 start32 (map machine32 0 0x4567_8000 size_4k 3 start32) in
    record s {
      memory = record s.memory { words = λ p. if p == 9 * 4096 then 5 else s.memory.words p };
    }

-- The walk of the L2 table takes the word in the next frame for the entry of an address 4M up.
walked32-walk :
    walk_recursive machine32 1 walked32.memory 0x8000 1 0 2 true false
    ≡ pre 1 0 0 0x4567_845f ∷ pre 1 1024 0x40_0000 5 ∷ []
unfolding walked32 map walk_recursive a32_pte
walked32-walk = refl
