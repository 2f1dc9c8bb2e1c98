-- ===== src/Tests/Regions.antt =====
-- The operations on regions at a concrete region: a 4K page, a 2M page and a 4K page.
use mathlib.Core.Path.{subst}
use page_table_multiarch.Common.{ℕ, ◌+◌, ◌≡◌, refl, true, arith}
use page_table_multiarch.Paging.{ok}
use page_table_multiarch.Paging.Run.{Run, done}
use page_table_multiarch.Entry.X64.{x64_pte}
use page_table_multiarch.Table64.Placed.{Placement}
use page_table_multiarch.Table64.Mapped.{IsSession}
use page_table_multiarch.Table64.Tiled.{Tiled}
use page_table_multiarch.Table64.Region.{map_region, unmap_region, protect_region, choose_size}
use page_table_multiarch.Table64.MapRegion.{
  Outcome, refuses, proceeds, MapsRegion, covers, stops, map_region-Outcome,
}
use page_table_multiarch.Table64.Choose.{Fits, choose_size-Fits}
use page_table_multiarch.Table64.UnmapRegion.{Clears, unmap_region-Clears}
use page_table_multiarch.Table64.Restored.{Restored, unmap_region-map_region}
use page_table_multiarch.Table64.ProtectRegion.{Sets, protect_region-Sets}
use page_table_multiarch.Paging.Run.{state-same}
use page_table_multiarch.Table64.New.{at_root}
use page_table_multiarch.Tests.Machine.{machine, machine-IsPlatform, start, start-IsSession}
use page_table_multiarch.Tests.Mappings.{Machine, after}

abbrev shifted : ℕ → ℕ
shifted v = v + 0x4000_0000

unfoldable region : Machine
region = after start (map_region machine 0x1f_f000 shifted 0x20_2000 3 true start)

region-map : map_region machine 0x1f_f000 shifted 0x20_2000 3 true start ≡ done (ok tt) region
unfolding region map_region x64_pte
region-map = refl

three_accepted : machine-IsPlatform.accepts 3 ≡ true
unfolding machine-IsPlatform
three_accepted = refl

-- What the region's table is known to be.
record Ready (s : Machine) : Type 0 where
  place : Placement
  session : IsSession machine-IsPlatform place s
  tiled : Tiled machine-IsPlatform s 0x1f_f000 0x20_2000

from_region :
    {s : Machine} {r : Run Machine (Unit {0})}
    → MapsRegion machine-IsPlatform shifted 3 start 0x1f_f000 0x20_2000 r
    → r ≡ done (ok tt) s
    → Ready s
from_region {s} (covers {s' = s1} k inside tiled) eq =
    subst Ready (state-same eq) (record { place = k.place; session = k.session; tiled = tiled })
from_region (stops k) eq = absurd cc

ready :
    {s : Machine} {r : Run Machine (Unit {0})}
    → Outcome machine-IsPlatform shifted 3 start 0x1f_f000 0x20_2000 r
    → r ≡ done (ok tt) s
    → Ready s
ready (refuses odd refused) eq = absurd (cc (refused, eq))
ready (proceeds va sa m) eq = from_region m eq

region-Ready : Ready region
region-Ready =
    ready
      (map_region-Outcome machine-IsPlatform shifted 3 true (omega arith) three_accepted
        (at_root machine-IsPlatform 4096) start 0x1f_f000 0x20_2000 start-IsSession (omega arith))
      region-map

map_region-Outcome_example :
    Outcome machine-IsPlatform shifted 3 start 0x1f_f000 0x20_2000
      (map_region machine 0x1f_f000 shifted 0x20_2000 3 true start)
map_region-Outcome_example =
    map_region-Outcome machine-IsPlatform shifted 3 true (omega arith) three_accepted
      (at_root machine-IsPlatform 4096) start 0x1f_f000 0x20_2000 start-IsSession (omega arith)

choose_size-Fits_example :
    Fits machine-IsPlatform 0x20_0000 0x4020_0000 0x20_1000
      (choose_size machine true 0x20_0000 0x4020_0000 0x20_1000)
choose_size-Fits_example =
    choose_size-Fits machine-IsPlatform 0x20_0000 0x4020_0000 0x20_1000 refl refl (omega arith) true

unmap_region-Clears_example :
    Clears machine-IsPlatform region 0x1f_f000 0x20_2000
      (unmap_region machine 0x1f_f000 0x20_2000 region)
unmap_region-Clears_example =
    unmap_region-Clears machine-IsPlatform region-Ready.place region 0x1f_f000 0x20_2000
      region-Ready.session (omega arith) region-Ready.tiled

unmap_region-map_region_example : Restored machine-IsPlatform start region 0x1f_f000 0x20_2000
unmap_region-map_region_example =
    unmap_region-map_region machine-IsPlatform shifted 3 true (omega arith) three_accepted start
      region 0x1f_f000 0x20_2000 (at_root machine-IsPlatform 4096) start-IsSession (omega arith)
      region-map

protect_region-Sets_example :
    Sets machine-IsPlatform 1 region 0x1f_f000 0x20_2000
      (protect_region machine 0x1f_f000 0x20_2000 1 region)
unfolding machine-IsPlatform
protect_region-Sets_example =
    protect_region-Sets machine-IsPlatform 1 (omega arith) refl region-Ready.place region 0x1f_f000
      0x20_2000 region-Ready.session (omega arith) region-Ready.tiled
