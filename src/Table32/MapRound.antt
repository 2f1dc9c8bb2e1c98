-- ===== src/Table32/MapRound.antt =====
-- A region of which the first page is mapped, and then the rest.
use page_table_multiarch.Common.{
  ℕ, ◌+◌, ◌-◌, ◌%◌, ◌^◌, ◌≤◌, ◌<◌, ◌≡◌, ◌≢◌, ◌⊎◌, ◌↔◌, refl, sym, ◌∙◌, inl, inr, true, false, some,
  none, arith,
}
use native.Mathlib.Decide.{dec_lt}
use page_table_multiarch.Paging.{PagingError, ok, err, PageSize, size_of, Platform}
use page_table_multiarch.Paging.Run.{Run, done, Cmd, and_then}
use page_table_multiarch.Paging.Flusher.{asks}
use page_table_multiarch.Table32.Contract.{IsPlatform}
use page_table_multiarch.Table32.Placed.{Owners, page}
use page_table_multiarch.Table32.Session.{IsSession, answers, Changes}
use page_table_multiarch.Table32.Mapped.{IsSize, page_word, Mapped, mapped, no_frame, in_use}
use page_table_multiarch.Table32.Choose.{page-range, Chosen, Outside, rest-Outside}
use page_table_multiarch.Table32.Tiled.{Tiles, tiles_page}
use page_table_multiarch.Table32.Cursor.{Session}

module _ {S V B : Type 0} {e : Platform S V B} (a : IsPlatform e) where
  -- What a part of the loop has done with the region from `v` on.
  module _ (get_paddr : ℕ → ℕ) (f : ℕ) where
    -- A page of the region: it maps its start as asked, and is to be flushed.
    pub record InPage (s : Session S V) (v size u : ℕ) : Type 0 where
      pub chosen : PageSize
      pub base : ℕ
      pub kind : IsSize chosen
      pub aligned : base % size_of chosen ≡ 0
      pub within : (v ≤ base) × (base + size_of chosen ≤ v + size)
      pub around : (base ≤ u) × (u < base + size_of chosen)
      pub maps : answers a s u ≡ some (page_word a (get_paddr base) chosen f, chosen)
      pub flushed : asks e.vec s.cursor.flusher base ≡ true

    pub data RegionMapped (s : Session S V) (v size : ℕ)
        : Run (Session S V) (Unit {0}) → Type 0 where
      region_mapped :
          {s' : Session S V} (owner : Owners)
          → IsSession a owner s'
          → ((u : ℕ) → u < 2 ^ 32 → v ≤ u → u < v + size → answers a s u ≡ none)
          → ((u : ℕ) → u < 2 ^ 32 → v ≤ u → u < v + size → InPage s' v size u)
          → Tiles a s' false v size
          → ((u : ℕ) → u < 2 ^ 32 → Outside v size u → answers a s' u ≡ answers a s u)
          → ((u : ℕ) → asks e.vec s.cursor.flusher u ≡ true → asks e.vec s'.cursor.flusher u ≡ true)
          → RegionMapped s v size (done (ok tt) s')
      region_failed :
          {r : PagingError} {s' : Session S V} (owner : Owners)
          → IsSession a owner s'
          → ((u : ℕ) → u < 2 ^ 32 → Outside v size u → answers a s' u ≡ answers a s u)
          → RegionMapped s v size (done (err r) s')

    module _ {owner : Owners} {chosen : PageSize} (s s1 : Session S V) (v size : ℕ)
        (c : Chosen v size chosen) (room : v + size ≤ 2 ^ 32)
        (ch : Changes a owner s s1 chosen v
          (some (page_word a (get_paddr v) chosen f, chosen))) where
      abbrev next : ℕ
      next = (v + size_of chosen) % 2 ^ 32

      abbrev left : ℕ
      left = size - size_of chosen

      first_page :
          (u : ℕ)
          → u < 2 ^ 32
          → (page chosen u ≡ page chosen v) ↔ (v ≤ u) × (u < v + size_of chosen)
      first_page u small =
          let fits = c.fits in page-range u v c.kind small c.aligned (omega (arith, fits))

      behind_page :
          (u : ℕ) → u < 2 ^ 32 → (u < v + size_of chosen → ⊥) → page chosen u ≢ page chosen v
      behind_page u small behind same = behind ((first_page u small).0 same).1

      module _ (s' : Session S V)
          (outside : (u : ℕ)
            → u < 2 ^ 32
            → Outside next left u
            → answers a s' u ≡ answers a s1 u) where
        rest_same : (u : ℕ) → u < 2 ^ 32 → Outside v size u → answers a s' u ≡ answers a s u
        rest_same u small side =
            outside u small (rest-Outside v size (size_of chosen) u c.fits room (wider side))
            ∙ ch.others u (apart side)
          where
            wider : Outside v size u → (u < v + size_of chosen) ⊎ (v + size ≤ u)
            wider (inl before) = inl (omega arith)
            wider (inr behind) = inr behind

            apart : Outside v size u → page chosen u ≢ page chosen v
            apart (inl before) same =
                let in_page = (first_page u small).0 same in absurd (omega (arith, in_page.0))
            apart (inr behind) same =
                let in_page = (first_page u small).0 same in
                let fits = c.fits in absurd (omega (arith, in_page.1, fits))

        first_maps :
            (u : ℕ)
            → u < 2 ^ 32
            → v ≤ u
            → u < v + size_of chosen
            → asks e.vec s'.cursor.flusher v ≡ true
            → InPage s' v size u
        first_maps u small low high flushed = record {
          chosen = chosen;
          base = v;
          kind = c.kind;
          aligned = c.aligned;
          within = (omega arith, let fits = c.fits in omega (arith, fits));
          around = (low, high);
          maps =
              outside u small (rest-Outside v size (size_of chosen) u c.fits room (inl high))
              ∙ ch.here u ((first_page u small).1 (low, high));
          flushed = flushed;
        }

      -- a page of the rest is a page of the region
      later_maps :
          (s' : Session S V) (u : ℕ)
          → u < 2 ^ 32
          → v + size_of chosen ≤ u
          → InPage s' next left u
          → InPage s' v size u
      later_maps s' u small low i = record {
        chosen = i.chosen;
        base = i.base;
        kind = i.kind;
        aligned = i.aligned;
        within =
            let (start, end) = i.within in
            let fits = c.fits in (omega (arith, start), omega (arith, end, fits));
        around = i.around;
        maps = i.maps;
        flushed = i.flushed;
      }

      -- The loop after a page that is mapped.
      map_rest :
          {r : Run (Session S V) (Unit {0})}
          → ((u : ℕ) → page chosen u ≡ page chosen v → answers a s u ≡ none)
          → RegionMapped s1 next left r
          → RegionMapped s v size r
      map_rest free (region_mapped {s'} owner' t free_rest inside tiles outside asked) =
          let fits = c.fits in
          let some_size = c.progress in
          region_mapped owner' t
            (λ u small low high. elim (dec_lt u (v + size_of chosen)) [
              | yes here ↦ free u ((first_page u small).1 (low, here))
              | no behind ↦
                  sym (ch.others u (behind_page u small behind))
                  ∙ free_rest u small (omega arith) (omega (arith, fits))
            ])
            (λ u small low high. elim (dec_lt u (v + size_of chosen)) [
              | yes here ↦ first_maps s' outside u small low here (asked v ch.requested)
              | no behind ↦
                  later_maps s' u small (omega arith)
                    (inside u small (omega arith) (let fits = c.fits in omega (arith, fits)))
            ])
            (tiles_page c.kind
              (outside v (omega (arith, some_size, fits)) (
                  rest-Outside v size (size_of chosen) v c.fits room
                    (inl (omega (arith, some_size))))
                ∙ ch.here v refl)
              c.aligned c.fits tiles)
            (rest_same s' outside) (λ u h. asked u (ch.requested_old u h))
      map_rest free (region_failed {s' = s'} owner' t outside) =
          region_failed owner' t (rest_same s' outside)

    -- One round: a `map`, and the rest where it succeeds.
    pub map_next :
        {owner : Owners} {chosen : PageSize} {s : Session S V} {v size : ℕ}
        {r : Run (Session S V) (Unit {0})} (rest : Cmd (Session S V) (Unit {0}))
        → Chosen v size chosen
        → v + size ≤ 2 ^ 32
        → Mapped a owner s chosen v (page_word a (get_paddr v) chosen f) r
        → ((owner' : Owners) (s1 : Session S V)
            → IsSession a owner' s1
            → RegionMapped s1 ((v + size_of chosen) % 2 ^ 32) (size - size_of chosen) (rest s1))
        → RegionMapped s v size (and_then r (λ _. rest))
    map_next {s = s} {v} {size} rest c room (mapped {s' = s1} owner' free ch) later =
        map_rest s s1 v size c room ch free (later owner' s1 ch.session)
    map_next {owner} rest c room (no_frame small failed free u) later =
        region_failed owner u.session (λ x low side. u.same x)
    map_next {owner} rest c room (in_use used answered u) later =
        region_failed owner u.session (λ x low side. u.same x)
