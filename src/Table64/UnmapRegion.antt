-- ===== src/Table64/UnmapRegion.antt =====
-- `unmap_region` of a region that pages tile.
use mathlib.Core.Path.{subst}
use native.Mathlib.Decide.{dec_lt}
use page_table_multiarch.Common.{
  ℕ, zero, suc, ◌+◌, ◌-◌, ◌*◌, ◌%◌, ◌^◌, ◌≤◌, ◌<◌, ◌≡◌, ◌⊎◌, inl, inr, refl, ◌∙◌, true, false, leb,
  ◌==◌, arith,
}
use page_table_multiarch.Paging.{ok, err, PageSize, size_of, is_aligned, Platform, not_mapped}
use page_table_multiarch.Paging.Run.{Run, done, Cmd, and_then, assert, ◌>>◌}
use page_table_multiarch.Paging.Contract.{IsPlatform}
use page_table_multiarch.Table64.Height.{size_at}
use page_table_multiarch.Table64.Placed.{Placement}
use page_table_multiarch.Table64.Pages.{space, space-small, no_wrap, same-page, other-page}
use page_table_multiarch.Table64.Tiled.{
  Tiled, no_more, tile, Keeps, bytes_at, bytes_at-positive, Tiled-same,
}
use page_table_multiarch.Table64.Mapped.{IsSession, answers, Changes}
use page_table_multiarch.Table64.Unmapped.{Unmapped, unmapped, vacant, unmap-Unmapped}
use page_table_multiarch.Table64.Queries.{size_at-inj}
use page_table_multiarch.Table64.Region.{rounds, unmap_loop, unmap_region}
use page_table_multiarch.Table64.Cursor.{Session}

module _ {S V B : Type 0} {e : Platform S V B} (a : IsPlatform e) where
  -- The region is unmapped.
  pub data Clears (s : Session S V B) (v size : ℕ) : Run (Session S V B) (Unit {0}) → Type 0 where
    clears :
        {s' : Session S V B}
        → Keeps a s s' v size
        → ((u : ℕ) → v ≤ u → u < v + size → answers a s' u ≡ err not_mapped)
        → Clears s v size (done (ok tt) s')

  -- the rest of a round, once `unmap` has given a page of the size `p`
  abbrev rest_of : (fuel vaddr size : ℕ) → ℕ × ℕ × PageSize → Cmd (Session S V B) (Unit {0})
  rest_of fuel vaddr size (_, _, page_size) = do
    assert (is_aligned e.addr page_size vaddr)
    assert (leb (size_of page_size) size)
    unmap_loop e fuel ((vaddr + size_of page_size) % 2 ^ 64) (size - size_of page_size)

  pub aligned-test : (h v : ℕ) → h ≤ 2 → v % bytes_at h ≡ 0 → is_aligned e.addr (size_at h) v ≡ true
  aligned-test zero v low aligned = ground (arith, a.alignment.is_aligned_lem v 12)
  aligned-test (suc zero) v low aligned = ground (arith, a.alignment.is_aligned_lem v 21)
  aligned-test (suc (suc zero)) v low aligned = ground (arith, a.alignment.is_aligned_lem v 30)
  aligned-test (suc (suc (suc h))) v low aligned = absurd (omega arith)

  module _ (place : Placement) (s : Session S V B) (fuel v size h word : ℕ) (low : h ≤ 2)
      (aligned : v % bytes_at h ≡ 0) (fits : bytes_at h ≤ size)
      (here : answers a s v ≡ ok (word, size_at h)) (bound : v + size ≤ space e.meta.levels)
      (rest : (s1 : Session S V B)
        → IsSession a place s1
        → ((u : ℕ) → v + bytes_at h ≤ u → u < v + size → answers a s1 u ≡ answers a s u)
        → Clears s1
            (v + bytes_at h)
            (size - bytes_at h)
            (unmap_loop e fuel (v + bytes_at h) (size - bytes_at h) s1)) where
    below : v < space e.meta.levels
    below = omega (arith, bound, fits, (bytes_at-positive a h low).0)

    others :
        {s1 : Session S V B}
        → Changes a place s s1 h v (err not_mapped)
        → (u : ℕ) → u < space e.meta.levels
        → (u < v) ⊎ (v + bytes_at h ≤ u)
        → answers a s1 u ≡ answers a s u
    others c u lt out =
        c.others u (other-page e.meta.levels h u v a.levels low aligned lt below out)

    extend :
        {s1 : Session S V B} {r : Run (Session S V B) (Unit {0})}
        → Changes a place s s1 h v (err not_mapped)
        → Clears s1 (v + bytes_at h) (size - bytes_at h) r
        → Clears s v size r
    extend c (clears k inside) =
        clears
          (record {
            place = k.place;
            session = k.session;
            same_table = k.same_table ∙ c.same_table;
            outside = λ u lt out.
                k.outside u lt (ground (arith, out, fits))
                ∙ others c u lt (ground (arith, out, fits));
            asks_old = λ u old. k.asks_old u (c.asks_old u old);
          })
          λ u from to. elim (dec_lt u (v + bytes_at h)) [
            | yes now ↦
                k.outside u (omega (arith, bound, to)) (inl now)
                ∙ c.here u (
                    same-page e.meta.levels h u v a.levels low aligned (omega (arith, bound, to))
                      below from now)
            | no later ↦ inside u (omega arith) (omega (arith, fits))
          ]

    round :
        {r : Run (Session S V B) (ℕ × ℕ × PageSize)}
        → Unmapped a place s v r
        → Clears s v size (and_then r (rest_of fuel v size))
    round (vacant missing u) = absurd (cc (missing, here))
    round (unmapped {s' = s1} h' word' low' found c') =
        rw
          (
            same_size,
            aligned-test h v low aligned,
            fits-test,
            no_wrap (v + bytes_at h)
                (omega (arith, bound, fits, space-small e.meta.levels a.levels)),
          )
          (extend c (rest s1 c.session λ u from to. others c u (omega (arith, bound)) (inr from)))
      where
        same_size : size_at h' ≡ size_at h
        same_size = cc (found v refl, here)

        c : Changes a place s s1 h v (err not_mapped)
        c =
            subst (λ k. Changes a place s s1 k v (err not_mapped))
              (size_at-inj h' h low' low same_size) c'

        fits-test : leb (bytes_at h) size ≡ true
        fits-test = ground (arith, fits)

  loop :
      (fuel : ℕ) (place : Placement) (s : Session S V B) (v size : ℕ)
      → IsSession a place s
      → size < fuel * 0x1000
      → v + size ≤ space e.meta.levels
      → Tiled a s v size
      → Clears s v size (unmap_loop e fuel v size s)
  unfolding unmap_loop
  loop zero place s v size t enough bound tiled = absurd (omega arith)
  loop (suc fuel) place s v _ t enough bound no_more =
      clears
        (record {
          place = place;
          session = t;
          same_table = refl;
          outside = λ u lt out. refl;
          asks_old = λ u old. old;
        })
        λ u from to. absurd (omega arith)
  loop (suc fuel) place s v size t enough bound (tile h word low aligned fits here rest) =
      let positive = (bytes_at-positive a h low).0 in
      rw (some_left positive) (
        round place s fuel v size h word low aligned fits here bound
          (λ s1 t1 same.
            loop fuel place s1 (v + bytes_at h) (size - bytes_at h) t1 (omega (arith, positive))
              (omega (arith, fits))
              (Tiled-same a (λ u from to. same u from (omega (arith, fits))) rest))
          (unmap-Unmapped a s v t))
    where
      some_left : 0x1000 ≤ bytes_at h → (size == 0) ≡ false
      some_left positive = ground (arith, fits)

  -- `unmap_region` on a region of the translated space that whole mapped pages tile: it succeeds,
  -- without a panic and before its rounds are used up; no address of the region is mapped then, and
  -- the addresses outside keep their answers, in a well-formed table on the same root.
  pub unmap_region-Clears :
      (place : Placement) (s : Session S V B) (v size : ℕ)
      → IsSession a place s
      → v + size ≤ space e.meta.levels
      → Tiled a s v size
      → Clears s v size (unmap_region e v size s)
  unfolding unmap_region
  unmap_region-Clears place s v size t bound tiled =
      loop (rounds size) place s v size t (omega arith) bound tiled
