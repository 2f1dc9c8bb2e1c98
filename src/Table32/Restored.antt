-- ===== src/Table32/Restored.antt =====
-- `unmap_region` after `map_region` on two-level tables.
use mathlib.Core.Path.{subst}
use page_table_multiarch.Common.{
  ℕ, ◌+◌, ◌^◌, ◌≤◌, ◌<◌, ◌≡◌, inl, inr, sym, ◌∙◌, Bool, true, none, arith,
}
use native.Mathlib.Decide.{dec_lt}
use page_table_multiarch.Paging.{ok, err, Platform, not_aligned}
use page_table_multiarch.Paging.Run.{Run, done, state-same}
use page_table_multiarch.Table32.Contract.{IsPlatform}
use page_table_multiarch.Table32.Placed.{Owners}
use page_table_multiarch.Table32.Session.{IsSession, answers}
use page_table_multiarch.Table32.Choose.{Outside}
use page_table_multiarch.Table32.MapRound.{RegionMapped, region_mapped, region_failed}
use page_table_multiarch.Table32.MapRegion.{map_region-RegionMapped}
use page_table_multiarch.Table32.UnmapRegion.{Cleared, unmap_region-Cleared32}
use page_table_multiarch.Table32.Cursor.{Session}
use page_table_multiarch.Table32.Region.{map_region, unmap_region}

module _ {S V B : Type 0} {e : Platform S V B} (a : IsPlatform e) where
  -- The region is unmapped again, and every address has the entry that it had at first.
  pub record Restores (s s' : Session S V) (v size : ℕ) : Type 0 where
    pub after : Session S V
    pub ends : unmap_region e v size s' ≡ done (ok tt) after
    pub same : (u : ℕ) → u < 2 ^ 32 → answers a after u ≡ answers a s u

  restored :
      {owner : Owners} (s s' : Session S V) (v size : ℕ)
      → IsSession a owner s'
      → ((u : ℕ) → u < 2 ^ 32 → v ≤ u → u < v + size → answers a s u ≡ none)
      → ((u : ℕ) → u < 2 ^ 32 → Outside v size u → answers a s' u ≡ answers a s u)
      → Cleared a s' v size (unmap_region e v size s')
      → Restores s s' v size
  restored s s' v size t free outside c = record {
    after = c.after;
    ends = c.ends;
    same = λ u small. elim (dec_lt u v) [
      | yes before ↦ c.rewritten.outside u small (inl before) ∙ outside u small (inl before)
      | no from_v ↦ elim (dec_lt u (v + size)) [
        | yes in_region ↦
            c.rewritten.inside u small (omega arith) in_region
            ∙ sym (free u small (omega arith) in_region)
        | no behind ↦
            c.rewritten.outside u small (inr (omega arith)) ∙ outside u small (inr (omega arith))
      ]
    ];
  }

  -- `unmap_region` of a region that `map_region` has mapped, within the address space and with flags
  -- that make a page, succeeds, and restores the entries of all addresses.
  pub unmap_region-Restores32 :
      {owner : Owners} (s s' : Session S V) (v size : ℕ) (get_paddr : ℕ → ℕ) (f : ℕ)
      (allow_huge : Bool)
      → f < 64
      → a.accepts f ≡ true
      → v + size ≤ 2 ^ 32
      → IsSession a owner s
      → map_region e v get_paddr size f allow_huge s ≡ done (ok tt) s'
      → Restores s s' v size
  unmap_region-Restores32 s s' v size get_paddr f allow_huge small accepted room t ends =
      elim (map_region-RegionMapped a get_paddr f allow_huge small accepted s v size room t) [
        | inl (unaligned, refused) ↦ absurd (no_success (sym refused ∙ ends))
        | inr outcome ↦ from outcome ends
      ]
    where
      no_success : {x : Session S V} → done (err not_aligned) s ≡ done (ok tt) x → ⊥
      no_success eq = cc

      from :
          {r : Run (Session S V) (Unit {0})}
          → RegionMapped a get_paddr f s v size r
          → r ≡ done (ok tt) s'
          → Restores s s' v size
      from (region_mapped {s' = s2} owner' t' free inside tiles outside asked) eq =
          subst (λ x. Restores s x v size) (state-same eq)
            (restored s s2 v size t' free outside
              (unmap_region-Cleared32 a s2 v size room t' tiles))
      from (region_failed owner' t' outside) eq = absurd cc
