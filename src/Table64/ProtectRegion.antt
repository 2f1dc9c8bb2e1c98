-- ===== src/Table64/ProtectRegion.antt =====
-- `protect_region` of a region that pages tile.
use mathlib.Core.Path.{subst}
use native.Mathlib.Decide.{dec_lt}
use page_table_multiarch.Common.{
  ℕ, zero, suc, ◌+◌, ◌-◌, ◌*◌, ◌%◌, ◌^◌, ◌≤◌, ◌<◌, ◌≡◌, ◌⊎◌, inl, inr, refl, sym, ◌∙◌, true, false,
  leb, ◌==◌, arith,
}
use page_table_multiarch.Paging.{
  PagingResult, ok, PageSize, size_of, is_huge_size, is_aligned, Platform, World,
}
use page_table_multiarch.Paging.Run.{Run, done, Cmd, and_then, assert, ◌>>◌}
use page_table_multiarch.Paging.Contract.{IsPlatform}
use page_table_multiarch.Table64.Defs.{Slot}
use page_table_multiarch.Table64.Height.{size_at}
use page_table_multiarch.Table64.Placed.{Placement}
use page_table_multiarch.Table64.Pages.{space, space-small, no_wrap, same-page, other-page}
use page_table_multiarch.Table64.Found.{Found, found, not_found, get_entry_mut-Found}
use page_table_multiarch.Table64.Tiled.{
  Tiled, no_more, tile, Keeps, bytes_at, bytes_at-positive, Tiled-same,
}
use page_table_multiarch.Table64.Mapped.{root_of, IsSession, answers, page_in, Changes}
use page_table_multiarch.Table64.Unmapped.{entry_answers}
use page_table_multiarch.Table64.Protected.{
  Protected, protected, not_protected, protect-Protected, protect_at,
}
use page_table_multiarch.Table64.Queries.{size_at-inj}
use page_table_multiarch.Table64.UnmapRegion.{aligned-test}
use page_table_multiarch.Table64.Region.{
  rounds, protect_match, protect_round, protect_loop, protect_region,
}
use page_table_multiarch.Table64.Cursor.{Session, in_session, protect}

module _ {S V B : Type 0} {e : Platform S V B} (a : IsPlatform e) (f : ℕ) where
  -- On a mapped address, a round does what `protect` does.
  round-protect :
      (place : Placement) (s : Session S V B) (v word : ℕ) (size : PageSize)
      → IsSession a place s
      → answers a s v ≡ ok (word, size)
      → protect_round e v f s ≡ protect e v f s
  unfolding protect protect_round
  round-protect place s v word size t here =
      from (get_entry_mut-Found a (root_of a s) s.cursor.inner v place s.world refl t)
    where
      from :
          {r : Run (World S) (Slot × PageSize)}
          → Found a (root_of a s) place s.world v r
          → protect_match e v f (in_session s.cursor r)
            ≡ and_then (in_session s.cursor r) (protect_at a v f)
      from (not_found missing) = absurd (cc (missing, here))
      from (found {s = p} h low at kind) = rw there
        where
          there : e.pte.is_present (s.world.mem p.frame p.index) ≡ true
          there = ground (arith, here, entry_answers a s t h v p at kind v refl)

  -- Every page of the region has its flags set.
  pub data Sets (s : Session S V B) (v size : ℕ) : Run (Session S V B) (Unit {0}) → Type 0 where
    sets :
        {s' : Session S V B}
        → Keeps a s s' v size
        → ((u word : ℕ) (p : PageSize)
            → v ≤ u
            → u < v + size
            → answers a s u ≡ ok (word, p)
            → answers a s' u ≡ ok (e.pte.set_flags word f (is_huge_size p), p))
        → Tiled a s' v size
        → Sets s v size (done (ok tt) s')

  abbrev rest_of : (fuel vaddr size : ℕ) → PageSize → Cmd (Session S V B) (Unit {0})
  rest_of fuel vaddr size page_size = do
    assert (is_aligned e.addr page_size vaddr)
    assert (leb (size_of page_size) size)
    protect_loop e f fuel ((vaddr + size_of page_size) % 2 ^ 64) (size - size_of page_size)

  module _ (accepted : a.accepts f ≡ true) (small : f < 64) (place : Placement) (s : Session S V B)
      (fuel v size h word : ℕ) (low : h ≤ 2) (aligned : v % bytes_at h ≡ 0)
      (fits : bytes_at h ≤ size) (here : answers a s v ≡ ok (word, size_at h))
      (bound : v + size ≤ space e.meta.levels)
      (rest : (s1 : Session S V B)
        → IsSession a place s1
        → ((u : ℕ) → v + bytes_at h ≤ u → u < v + size → answers a s1 u ≡ answers a s u)
        → Sets s1
            (v + bytes_at h)
            (size - bytes_at h)
            (protect_loop e f fuel (v + bytes_at h) (size - bytes_at h) s1)) where
    below : v < space e.meta.levels
    below = omega (arith, bound, fits, (bytes_at-positive a h low).0)

    module _ (word' : ℕ) {s1 : Session S V B}
        (before : (u : ℕ) → page_in a h u ≡ page_in a h v → answers a s u ≡ ok (word', size_at h))
        (c : Changes a place s s1 h v
          (ok (e.pte.set_flags word' f (is_huge_size (size_at h)), size_at h))) where
      others :
          (u : ℕ)
          → u < space e.meta.levels
          → (u < v) ⊎ (v + bytes_at h ≤ u)
          → answers a s1 u ≡ answers a s u
      others u lt out =
          c.others u (other-page e.meta.levels h u v a.levels low aligned lt below out)

      in_page : (u : ℕ) → v ≤ u → u < v + size → u < v + bytes_at h → page_in a h u ≡ page_in a h v
      in_page u from to now =
          same-page e.meta.levels h u v a.levels low aligned (omega (arith, bound, to)) below from
            now

      extend :
          {r : Run (Session S V B) (Unit {0})}
          → Sets s1 (v + bytes_at h) (size - bytes_at h) r
          → Sets s v size r
      extend (sets k inside tiled) =
          sets
            (record {
              place = k.place;
              session = k.session;
              same_table = k.same_table ∙ c.same_table;
              outside = λ u lt out.
                  k.outside u lt (ground (arith, out, fits))
                  ∙ others u lt (ground (arith, out, fits));
              asks_old = λ u old. k.asks_old u (c.asks_old u old);
            })
            (λ u x p from to was. elim (dec_lt u (v + bytes_at h)) [
              | yes now ↦
                  k.outside u (omega (arith, bound, to)) (inl now)
                  ∙ c.here u (in_page u from to now)
                  ∙ flagged x p (sym (before u (in_page u from to now)) ∙ was)
              | no later ↦
                  inside u x p (omega arith) (omega (arith, fits))
                    (others u (omega (arith, bound, to)) (inr (omega arith)) ∙ was)
            ])
            (tile h _ low aligned fits
              (k.outside v below (inl (omega (arith, (bytes_at-positive a h low).0)))
                ∙ c.here v refl)
              tiled)
        where
          flagged :
              (x : ℕ) (p : PageSize)
              → ◌≡◌ {A = PagingResult (ℕ × PageSize)} (ok (word', size_at h)) (ok (x, p))
              → ◌≡◌ {A = PagingResult (ℕ × PageSize)}
                  (ok (e.pte.set_flags word' f (is_huge_size (size_at h)), size_at h))
                  (ok (e.pte.set_flags x f (is_huge_size p), p))
          flagged x p same =
              let same_word : word' ≡ x = cc same in
              let same_size : size_at h ≡ p = cc same in rw (same_word, same_size)

    round :
        {r : Run (Session S V B) PageSize}
        → Protected a place s v f r
        → Sets s v size (and_then r (rest_of fuel v size))
    round (not_protected missing) = absurd (cc (missing, here))
    round (protected {s' = s1} h' word' low' before c) =
        rw
          (
            same_size,
            aligned-test a h v low aligned,
            fits-test,
            no_wrap (v + bytes_at h)
                (omega (arith, bound, fits, space-small e.meta.levels a.levels)),
          )
          (extend word' at_height.0 at_height.1 (
            rest s1 c.session λ u from to.
              others word' at_height.0 at_height.1 u (omega (arith, bound, to)) (inr from)))
      where
        same_size : size_at h' ≡ size_at h
        same_size = cc (before v refl, here)

        same_height : h' ≡ h
        same_height = size_at-inj h' h low' low same_size

        at_height :
            ((u : ℕ) → page_in a h u ≡ page_in a h v → answers a s u ≡ ok (word', size_at h))
            × Changes a place s s1 h v
                (ok (e.pte.set_flags word' f (is_huge_size (size_at h)), size_at h))
        at_height =
            subst
              (λ k.
                ((u : ℕ) → page_in a k u ≡ page_in a k v → answers a s u ≡ ok (word', size_at k))
                × Changes a place s s1 k v
                    (ok (e.pte.set_flags word' f (is_huge_size (size_at k)), size_at k)))
              same_height (before, c)

        fits-test : leb (bytes_at h) size ≡ true
        fits-test = ground (arith, fits)

  loop :
      f < 64
      → a.accepts f ≡ true
      → (fuel : ℕ) (place : Placement) (s : Session S V B) (v size : ℕ) → IsSession a place s
      → size < fuel * 0x1000
      → v + size ≤ space e.meta.levels
      → Tiled a s v size
      → Sets s v size (protect_loop e f fuel v size s)
  unfolding protect_loop
  loop small accepted zero place s v size t enough bound tiled = absurd (omega arith)
  loop small accepted (suc fuel) place s v _ t enough bound no_more =
      sets
        (record {
          place = place;
          session = t;
          same_table = refl;
          outside = λ u lt out. refl;
          asks_old = λ u old. old;
        })
        (λ u word p from to was. absurd (omega arith)) no_more
  loop small accepted (suc fuel) place s v size t enough bound
        (tile h word low aligned fits here rest) =
      let positive = (bytes_at-positive a h low).0 in
      rw (some_left positive, round-protect place s v word (size_at h) t here)
        (round accepted small place s fuel v size h word low aligned fits here bound
          (λ s1 t1 same.
            loop small accepted fuel place s1 (v + bytes_at h) (size - bytes_at h) t1
              (omega (arith, positive)) (omega (arith, fits))
              (Tiled-same a (λ u from to. same u from (omega (arith, fits))) rest))
          (protect-Protected a s v f small accepted t))
    where
      some_left : 0x1000 ≤ bytes_at h → (size == 0) ≡ false
      some_left positive = ground (arith, fits)

  -- `protect_region` on a region of the translated space that whole mapped pages tile, with flags that
  -- make a present page: it succeeds, without a panic and before its rounds are used up; each address
  -- of the region has its old entry with the new flags, the addresses outside keep their answers, and
  -- whole pages still tile the region.
  pub protect_region-Sets :
      f < 64
      → a.accepts f ≡ true
      → (place : Placement) (s : Session S V B) (v size : ℕ) → IsSession a place s
      → v + size ≤ space e.meta.levels
      → Tiled a s v size
      → Sets s v size (protect_region e v size f s)
  unfolding protect_region
  protect_region-Sets small accepted place s v size t bound tiled =
      loop small accepted (rounds size) place s v size t (omega arith) bound tiled
