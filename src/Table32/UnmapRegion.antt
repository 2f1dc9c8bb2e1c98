-- ===== src/Table32/UnmapRegion.antt =====
-- `unmap_region` on two-level tables: a region that whole pages tile is unmapped.
use mathlib.Core.Path.{subst}
use page_table_multiarch.Common.{
  ℕ, zero, suc, ◌+◌, ◌-◌, ◌/◌, ◌%◌, ◌^◌, ◌≤◌, ◌<◌, ◌≡◌, refl, sym, ◌∙◌, false, some, none, ==_ne,
  arith,
}
use page_table_multiarch.Paging.{ok, PageSize, size_of, Platform}
use page_table_multiarch.Paging.Run.{Run, done}
use page_table_multiarch.Table32.Contract.{IsPlatform}
use page_table_multiarch.Table32.Placed.{Owners}
use page_table_multiarch.Table32.Session.{IsSession, answers, Changes}
use page_table_multiarch.Table32.Unmapped.{Unmapped, unmapped, nothing, unmap-Unmapped32}
use page_table_multiarch.Table32.Choose.{next_room, page_room}
use page_table_multiarch.Table32.Tiled.{
  Tiles, tiles_end, tiles_page, tiles_hole, Tiles-agree, size_of-le,
}
use page_table_multiarch.Table32.Looped.{
  Entry, Rewritten, rewritten_none, rewritten_rest, rest_same, page_round, asserted,
}
use page_table_multiarch.Table32.Cursor.{Session, unmap}
use page_table_multiarch.Table32.Region.{rounds, unmap_loop, unmap_region}

module _ {S V B : Type 0} {e : Platform S V B} (a : IsPlatform e) where
  -- `unmap` of an address whose entry is known.
  pub record UnmappedAt (owner : Owners) (s : Session S V) (v word : ℕ) (size : PageSize)
      : Type 0 where
    pub after : Session S V
    pub ends : unmap e v s ≡ done (ok (e.pte.paddr word, e.pte.flags word, size)) after
    pub changes : Changes a owner s after size v none

  pub unmap-UnmappedAt :
      {owner : Owners} (s : Session S V) (v word : ℕ) (size : PageSize)
      → IsSession a owner s
      → answers a s v ≡ some (word, size)
      → UnmappedAt owner s v word size
  unmap-UnmappedAt {owner} s v word size t here = from (unmap-Unmapped32 a s v t) refl
    where
      no_page : {x : ℕ × PageSize} → none ≡ some x → ⊥
      no_page eq = cc

      pair_of : {x y : ℕ × PageSize} → some x ≡ some y → x ≡ y
      pair_of eq = cc

      from :
          {r : Run (Session S V) (ℕ × ℕ × PageSize)}
          → Unmapped a owner s v r
          → unmap e v s ≡ r
          → UnmappedAt owner s v word size
      from (nothing gone) eq = absurd (no_page (sym gone ∙ here))
      from (unmapped {s' = s1} {word = w} {size = z} answered c) eq =
          subst (λ (x : ℕ × PageSize). UnmappedAt owner s v x.0 x.1) (pair_of (sym answered ∙ here))
            (record { after = s1; ends = eq; changes = c })

  abbrev pub cleared : Entry → Entry
  cleared x = none

  -- The region is unmapped by a run that ends well.
  pub record Cleared (s : Session S V) (v size : ℕ) (r : Run (Session S V) (Unit {0}))
      : Type 0 where
    pub after : Session S V
    pub ends : r ≡ done (ok tt) after
    pub rewritten : Rewritten a cleared s after v size

  unmap_loop-Cleared :
      (fuel : ℕ) {owner : Owners} (s : Session S V) (v size : ℕ)
      → size / 0x1000 < fuel
      → v + size ≤ 2 ^ 32
      → IsSession a owner s
      → Tiles a s false v size
      → Cleared s v size (unmap_loop e fuel v size s)
  unfolding unmap_loop
  unmap_loop-Cleared zero s v size enough room t tiles = absurd (omega arith)
  unmap_loop-Cleared (suc fuel) s v size enough room t tiles_end = record {
    after = s;
    ends = refl;
    rewritten = rewritten_none a cleared s v t;
  }
  unmap_loop-Cleared (suc fuel) s v size enough room t (tiles_hole may here aligned fits rest) =
      absurd (cc may)
  unmap_loop-Cleared (suc fuel) s v size enough room t
        (tiles_page {word = word} {chosen = chosen} kind here aligned fits rest) =
      let some_size = size_of-le chosen in
      let first = unmap-UnmappedAt s v word chosen t here in
      let one =
        page_round a cleared kind aligned (page_room v size _ fits room) here refl first.changes in
      let later =
        unmap_loop-Cleared fuel first.after ((v + size_of chosen) % 2 ^ 32) (size - size_of chosen)
          (omega (arith, some_size)) (next_room v size _ fits room) first.changes.session
          (Tiles-agree a first.after (omega arith) (next_room v size _ fits room)
            (λ u small low high. rest_same a cleared kind aligned fits room one u small low high)
            rest) in
      record {
        after = later.after;
        ends =
            rw (==_ne size 0 (λ same. absurd (omega (arith, same, some_size))), first.ends)
              (asserted a v _ first.after kind aligned fits ∙ later.ends);
        rewritten = rewritten_rest a cleared kind aligned fits room one later.after later.rewritten;
      }

  -- `unmap_region` of a region that whole mapped pages tile, and that does not reach beyond the
  -- address space, succeeds within its rounds and without a panic. No address of the region is mapped
  -- afterwards, all other addresses have the entries they had, and every page that was mapped in the
  -- region is to be flushed, with all that was to be flushed before.
  pub unmap_region-Cleared32 :
      {owner : Owners} (s : Session S V) (v size : ℕ)
      → v + size ≤ 2 ^ 32
      → IsSession a owner s
      → Tiles a s false v size
      → Cleared s v size (unmap_region e v size s)
  unfolding unmap_region
  unmap_region-Cleared32 s v size room t tiles =
      unmap_loop-Cleared (rounds size) s v size (omega arith) room t tiles
