-- ===== src/Table32/MapRegion.antt =====
-- `map_region` on two-level tables: it ends, and where it succeeds every address of the region is
-- mapped as asked.
use page_table_multiarch.Common.{
  ℕ, zero, suc, ◌+◌, ◌/◌, ◌%◌, ◌^◌, ◌≤◌, ◌<◌, ◌≡◌, ◌≢◌, ◌⊎◌, refl, inl, inr, Bool, true, Bool-cases,
  ◌==◌, ==_iff, arith,
}
use page_table_multiarch.Paging.{err, Platform, not_aligned}
use page_table_multiarch.Paging.Run.{done}
use page_table_multiarch.Table32.Contract.{IsPlatform}
use page_table_multiarch.Table32.Placed.{Owners}
use page_table_multiarch.Table32.Session.{IsSession}
use page_table_multiarch.Table32.Mapped.{map-Mapped32}
use page_table_multiarch.Table32.Choose.{choose_size-Chosen, next_room}
use page_table_multiarch.Table32.Tiled.{tiles_end}
use page_table_multiarch.Table32.Cursor.{Session}
use page_table_multiarch.Table32.Region.{rounds, map_loop, map_region}
use page_table_multiarch.Table32.MapRound.{RegionMapped, region_mapped, map_next}

module _ {S V B : Type 0} {e : Platform S V B} (a : IsPlatform e) where
  module _ (get_paddr : ℕ → ℕ) (f : ℕ) (allow_huge : Bool) (small : f < 64)
      (accepted : a.accepts f ≡ true) where
    map_loop-RegionMapped :
        (fuel : ℕ) {owner : Owners} (s : Session S V) (v size : ℕ)
        → size / 0x1000 < fuel
        → v % 0x1000 ≡ 0
        → size % 0x1000 ≡ 0
        → v + size ≤ 2 ^ 32
        → IsSession a owner s
        → RegionMapped a get_paddr f s v size (map_loop e get_paddr f allow_huge fuel v size s)
    unfolding map_loop
    map_loop-RegionMapped zero s v size enough aligned whole room t = absurd (omega arith)
    map_loop-RegionMapped (suc fuel) {owner} s v size enough aligned whole room t =
        elim (Bool-cases (size == 0)) [
          | inl empty ↦
              let none_left = (==_iff size 0).0 empty in
              rw empty (
                region_mapped owner t (λ u low from_v to_end. absurd (omega (arith, none_left)))
                  (λ u low from_v to_end. absurd (omega (arith, none_left)))
                  (rw none_left tiles_end) (λ u low side. refl) (λ u h. h))
          | inr more ↦
              let c =
                choose_size-Chosen a allow_huge v (get_paddr v) size aligned whole
                  (λ same. ground arith) in
              let enough_left = c.progress in
              let fits = c.fits in
              rw more (
                map_next a get_paddr f _ c room
                  (map-Mapped32 a s v (get_paddr v) f c.kind small accepted t)
                  (λ owner' s1 t1.
                    map_loop-RegionMapped fuel s1 _ _ (omega (arith, enough_left, fits)) c.next
                      c.left (next_room v size _ fits room) t1))
        ]

    -- `map_region` on a well-formed table, with flags that make a page, of a region that does not
    -- reach beyond the address space. It ends without a panic and within its rounds. An address or
    -- a size that is not a multiple of 4K is refused with `NotAligned`, and nothing changes.
    -- Otherwise, if it succeeds, no address of the region was mapped, and whole pages tile it: every
    -- address of the region lies in an aligned page of 4K or 1M within the region, mapped to what
    -- `get_paddr` gives for the start of the page, with the flags asked for; the start of each such
    -- page is to be flushed, and all that was to be flushed before. If it succeeds or fails, the
    -- table is well formed, and addresses outside the region have the entries they had.
    pub map_region-RegionMapped :
        {owner : Owners} (s : Session S V) (v size : ℕ)
        → v + size ≤ 2 ^ 32
        → IsSession a owner s
        → (((v % 0x1000 ≢ 0) ⊎ (size % 0x1000 ≢ 0))
            × (map_region e v get_paddr size f allow_huge s ≡ done (err not_aligned) s))
          ⊎ RegionMapped a get_paddr f s v size (map_region e v get_paddr size f allow_huge s)
    unfolding map_region
    map_region-RegionMapped s v size room t =
        rw (a.alignment.is_aligned_lem v 12, a.alignment.is_aligned_lem size 12)
          (elim (Bool-cases (v % 0x1000 == 0)) [
            | inl start ↦ elim (Bool-cases (size % 0x1000 == 0)) [
              | inl whole ↦
                  rw (start, whole)
                    (inr (
                      map_loop-RegionMapped (rounds size) s v size (omega arith)
                        ((==_iff (v % 0x1000) 0).0 start) ((==_iff (size % 0x1000) 0).0 whole) room
                        t))
              | inr part ↦ rw (start, part) (inl (inr (λ same. ground arith), refl))
            ]
            | inr off ↦ rw off (inl (inl (λ same. ground arith), refl))
          ])
