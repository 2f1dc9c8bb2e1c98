-- ===== src/Table64/Restored.antt =====
-- `unmap_region` after `map_region`.
use mathlib.Core.Path.{subst}
use page_table_multiarch.Common.{ℕ, ◌+◌, ◌≤◌, ◌<◌, ◌≡◌, ◌⊎◌, refl, ◌∙◌, Bool, true}
use page_table_multiarch.Paging.{ok, err, Platform, not_mapped}
use page_table_multiarch.Paging.Run.{Run, done}
use page_table_multiarch.Paging.Contract.{IsPlatform}
use page_table_multiarch.Table64.Placed.{Placement}
use page_table_multiarch.Table64.Pages.{space}
use page_table_multiarch.Table64.Tiled.{Tiled, Keeps}
use page_table_multiarch.Table64.Mapped.{IsSession, answers}
use page_table_multiarch.Paging.Run.{state-same}
use page_table_multiarch.Table64.MapRegion.{
  MapsRegion, covers, stops, Outcome, refuses, proceeds, map_region-Outcome,
}
use page_table_multiarch.Table64.Region.{map_region, unmap_region}
use page_table_multiarch.Table64.Cursor.{Session}
use page_table_multiarch.Table64.UnmapRegion.{Clears, clears, unmap_region-Clears}

module _ {S V B : Type 0} {e : Platform S V B} (a : IsPlatform e) where
  -- `unmap_region` after `map_region`.
  pub record Restored (s s' : Session S V B) (v size : ℕ) : Type 0 where
    pub after : Session S V B
    pub ends : unmap_region e v size s' ≡ done (ok tt) after
    pub inside : (u : ℕ) → v ≤ u → u < v + size → answers a after u ≡ err not_mapped
    pub outside :
        (u : ℕ)
        → u < space e.meta.levels
        → (u < v) ⊎ (v + size ≤ u)
        → answers a after u ≡ answers a s u

  module _ (get_paddr : ℕ → ℕ) (f : ℕ) (allow_huge : Bool) (small : f < 64)
      (accepted : a.accepts f ≡ true) (s s' : Session S V B) (v size : ℕ) where
    restore :
        {r : Run (Session S V B) (Unit {0})}
        → Keeps a s s' v size
        → unmap_region e v size s' ≡ r
        → Clears a s' v size r
        → Restored s s' v size
    restore k eq (clears {s' = s''} l inside) = record {
      after = s'';
      ends = eq;
      inside = inside;
      outside = λ u lt out. l.outside u lt out ∙ k.outside u lt out;
    }

    -- `unmap_region` of a region that `map_region` has just mapped succeeds: no address of the region is
    -- mapped then, and the addresses outside have the answers they had before the `map_region`.
    pub unmap_region-map_region :
        (place : Placement)
        → IsSession a place s
        → v + size ≤ space e.meta.levels
        → map_region e v get_paddr size f allow_huge s ≡ done (ok tt) s'
        → Restored s s' v size
    unmap_region-map_region place t bound ends =
        from (map_region-Outcome a get_paddr f allow_huge small accepted place s v size t bound)
          ends
      where
        from_region :
            {r : Run (Session S V B) (Unit {0})}
            → MapsRegion a get_paddr f s v size r
            → r ≡ done (ok tt) s'
            → Restored s s' v size
        from_region (covers {s' = s1} k inside tiled) eq =
            let k' = subst (λ x. Keeps a s x v size) (state-same eq) k in
            restore k' refl (
              unmap_region-Clears a k'.place s' v size k'.session bound
                (subst (λ x. Tiled a x v size) (state-same eq) tiled))
        from_region (stops k) eq = absurd cc

        from :
            {r : Run (Session S V B) (Unit {0})}
            → Outcome a get_paddr f s v size r
            → r ≡ done (ok tt) s'
            → Restored s s' v size
        from (refuses odd refused) eq = absurd (cc (refused, eq))
        from (proceeds va sa m) eq = from_region m eq
