-- ===== src/Tests/Regions32.antt =====
-- The operations on regions and the drop of two-level tables on a concrete platform.
use page_table_multiarch.Common.{
  ℕ, ◌-◌, ◌*◌, ◌==◌, Bool-cases, inl, inr, if◌then◌else◌, ◌%◌, ◌≡◌, ◌≢◌, ◌⊎◌, refl, true, false,
  arith, ◌+◌,
}
use page_table_multiarch.Paging.{ok, err, not_aligned}
use page_table_multiarch.Paging.Run.{done}
use page_table_multiarch.Entry.A32.{a32_pte}
use page_table_multiarch.Table32.Answer.{first, second, answer}
use page_table_multiarch.Table32.Session.{IsSession}
use page_table_multiarch.Table32.Mapped.{is_4k}
use page_table_multiarch.Table32.MapRound.{RegionMapped}
use page_table_multiarch.Table32.MapRegion.{map_region-RegionMapped}
use page_table_multiarch.Table32.Tiled.{Tiles, tiles_end, tiles_page, tiles_hole}
use page_table_multiarch.Table32.UnmapRegion.{Cleared, unmap_region-Cleared32}
use page_table_multiarch.Table32.ProtectRegion.{Protects, protect_region-Protects32}
use page_table_multiarch.Table32.Restored.{Restores, unmap_region-Restores32}
use page_table_multiarch.Table32.Dropped.{Drops, drop_table-Drops}
use page_table_multiarch.Table32.Defs.{PageTable32}
use page_table_multiarch.Table32.Placed.{IsLink}
use page_table_multiarch.Table32.New.{no_owner, zeroed-IsTable}
use page_table_multiarch.Table32.CopyFrom.{IsSource, CopiesFrom, copy_from-CopiesFrom32}
use page_table_multiarch.Table32.Release.{copy_from}
use page_table_multiarch.Table32.Cursor.{map}
use page_table_multiarch.Table32.Region.{map_region, unmap_region, protect_region}
use page_table_multiarch.Tests.Machine32.{
  machine32, machine32-IsPlatform, start32, start32-IsSession,
}
use page_table_multiarch.Tests.Mappings32.{Machine32, after32, small_page32, small_page32-owned}

abbrev lowered : ℕ → ℕ
lowered v = v - 0x4000_0000

-- A page of 4K and a section: the region starts 4K below a multiple of 1M.
unfoldable region32 : Machine32
region32 = after32 start32 (map_region machine32 0xc00f_f000 lowered 0x10_1000 3 true start32)

region32-map_region :
    map_region machine32 0xc00f_f000 lowered 0x10_1000 3 true start32 ≡ done (ok tt) region32
unfolding region32 map_region a32_pte
region32-map_region = refl

map_region-RegionMapped_example :
    (((0xc00f_f000 % 0x1000 ≢ 0) ⊎ (0x10_1000 % 0x1000 ≢ 0))
      × (map_region machine32 0xc00f_f000 lowered 0x10_1000 3 true start32
          ≡ done (err not_aligned) start32))
    ⊎ RegionMapped machine32-IsPlatform lowered 3 start32 0xc00f_f000 0x10_1000
        (map_region machine32 0xc00f_f000 lowered 0x10_1000 3 true start32)
unfolding machine32-IsPlatform
map_region-RegionMapped_example =
    map_region-RegionMapped machine32-IsPlatform lowered 3 true (omega arith) refl start32
      0xc00f_f000 0x10_1000 (omega arith) start32-IsSession

unmap_region-Restores32_example :
    Restores machine32-IsPlatform start32 region32 0xc00f_f000 0x10_1000
unfolding machine32-IsPlatform
unmap_region-Restores32_example =
    unmap_region-Restores32 machine32-IsPlatform start32 region32 0xc00f_f000 0x10_1000 lowered 3
      true (omega arith) refl (omega arith) start32-IsSession region32-map_region

small_page32-Tiles : Tiles machine32-IsPlatform small_page32 false 0xc012_3000 0x1000
unfolding machine32-IsPlatform small_page32 map a32_pte answer first second
small_page32-Tiles = tiles_page is_4k refl refl (omega arith) tiles_end

unmap_region-Cleared32_example :
    Cleared machine32-IsPlatform small_page32 0xc012_3000 0x1000
      (unmap_region machine32 0xc012_3000 0x1000 small_page32)
unmap_region-Cleared32_example =
    unmap_region-Cleared32 machine32-IsPlatform small_page32 0xc012_3000 0x1000 (omega arith)
      small_page32-owned.1 small_page32-Tiles

small_page32-holes : Tiles machine32-IsPlatform small_page32 true 0xc012_2000 0x3000
unfolding machine32-IsPlatform small_page32 map a32_pte answer first second
small_page32-holes =
    tiles_hole refl refl refl (omega arith)
      (tiles_page is_4k refl refl (omega arith) (tiles_hole refl refl refl (omega arith) tiles_end))

protect_region-Protects32_example :
    Protects machine32-IsPlatform 1 small_page32 0xc012_2000 0x3000
      (protect_region machine32 0xc012_2000 0x3000 1 small_page32)
unfolding machine32-IsPlatform
protect_region-Protects32_example =
    protect_region-Protects32 machine32-IsPlatform 1 (omega arith) refl small_page32 0xc012_2000
      0x3000 (omega arith) small_page32-owned.1 small_page32-holes

drop_table-Drops_example : Drops machine32-IsPlatform small_page32.cursor.inner small_page32-owned.1
drop_table-Drops_example =
    drop_table-Drops machine32-IsPlatform small_page32.cursor.inner small_page32-owned.1

-- A second root in the frames 8 to 11, whose first entry is a section.
abbrev other32 : PageTable32
other32 = record { root_paddr = 0x8000; borrowed_entries = λ i. 0 }

abbrev two_roots32 : Machine32
two_roots32 = record start32 {
  memory = record start32.memory { words = λ p. if p == 0x8000 then 0x4561_1c0e else 0 };
}

two_roots32-IsSession : IsSession machine32-IsPlatform no_owner two_roots32
unfolding machine32-IsPlatform
two_roots32-IsSession =
    zeroed-IsTable machine32-IsPlatform two_roots32.memory 16384 refl (λ k small. ground arith)
      (λ i small. ground arith)

two_roots32-IsSource : IsSource machine32-IsPlatform 0x8000 16384 two_roots32.memory.words
unfolding machine32-IsPlatform a32_pte
two_roots32-IsSource = record {
  roots_apart = λ j k small small' same. absurd (omega (arith, same));
  tables_apart = λ u j link small same. absurd (no_link (0x8000 + 4 * first u) link);
}
  where
    no_link :
        (p : ℕ) → IsLink machine32-IsPlatform 0x8000 (if p == 0x8000 then 0x4561_1c0e else 0) → ⊥
    no_link p = elim (Bool-cases (p == 0x8000)) [
      | inl there ↦ rw there λ link. absurd (cc link.no_section)
      | inr nowhere ↦ rw nowhere λ link. absurd (cc link.in_use)
    ]

copy_from-CopiesFrom32_example :
    (c : CopiesFrom machine32-IsPlatform 0x8000 0x8_0000 0x10_0000 two_roots32) × (copy_from
        machine32 other32 0x8_0000 0x10_0000 two_roots32
      ≡ done (ok tt) c.after)
copy_from-CopiesFrom32_example =
    copy_from-CopiesFrom32 machine32-IsPlatform other32 two_roots32 0x8_0000 0x10_0000 (omega arith)
      two_roots32-IsSession two_roots32-IsSource
