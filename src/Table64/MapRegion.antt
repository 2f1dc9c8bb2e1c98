-- ===== src/Table64/MapRegion.antt =====
-- `map_region`: it ends, and where it succeeds every address of the region is mapped as asked.
use native.Mathlib.Decide.{dec_lt}
use mathlib.Core.Path.{subst}
use page_table_multiarch.Common.{
  ℕ, zero, suc, ◌+◌, ◌-◌, ◌*◌, ◌%◌, ◌≤◌, ◌<◌, ◌≡◌, ◌≢◌, ◌⊎◌, inl, inr, refl, sym, ap, ◌∙◌, Bool,
  true, false, not, ◌||◌, ◌==◌, Bool-cases, arith,
}
use page_table_multiarch.Paging.{
  PagingError, ok, err, PageSize, size_4k, size_of, is_huge_size, is_aligned, Platform, not_aligned,
}
use page_table_multiarch.Paging.Run.{Run, done, and_then}
use page_table_multiarch.Paging.Contract.{IsPlatform}
use page_table_multiarch.Table64.Height.{size_at, height_of}
use page_table_multiarch.Table64.Placed.{Placement}
use page_table_multiarch.Table64.Flush.{asked}
use page_table_multiarch.Table64.Pages.{space, space-small, no_wrap, same-page, other-page}
use page_table_multiarch.Table64.Tiled.{Tiled, no_more, tile, Keeps}
use page_table_multiarch.Table64.Mapped.{
  IsSession, answers, page_word, Mapped, mapped, failed, map-Mapped,
}
use page_table_multiarch.Table64.Queries.{height_of-le}
use page_table_multiarch.Table64.Choose.{Fits, choose_size-Fits}
use page_table_multiarch.Table64.Region.{rounds, choose_size, map_loop, map_region}
use page_table_multiarch.Table64.Cursor.{Session}

module _ {S V B : Type 0} {e : Platform S V B} (a : IsPlatform e) where
  module _ (get_paddr : ℕ → ℕ) (f : ℕ) where
    -- The address lies in a page that maps what `get_paddr` gives for the page's start, and the
    -- page is to be flushed.
    pub record Covered (s : Session S V B) (u : ℕ) : Type 0 where
      pub base : ℕ
      pub size : PageSize
      pub from : base ≤ u
      pub to : u < base + size_of size
      pub base_aligned : base % size_of size ≡ 0
      pub target_aligned : (size ≡ size_4k) ⊎ (get_paddr base % size_of size ≡ 0)
      pub maps : answers a s u ≡ ok (page_word a (get_paddr base) size f, size)
      pub flushed : asked e a.bounded s.cursor.flusher base ≡ true

    pub data MapsRegion (s : Session S V B) (v size : ℕ)
        : Run (Session S V B) (Unit {0}) → Type 0 where
      covers :
          {s' : Session S V B}
          → Keeps a s s' v size
          → ((u : ℕ) → v ≤ u → u < v + size → Covered s' u)
          → Tiled a s' v size
          → MapsRegion s v size (done (ok tt) s')
      stops :
          {r : PagingError} {s' : Session S V B}
          → Keeps a s s' v size
          → MapsRegion s v size (done (err r) s')

    -- The outcomes of `map_region`.
    pub data Outcome (s : Session S V B) (v size : ℕ) (r : Run (Session S V B) (Unit {0}))
        : Type 0 where
      refuses :
          (v % 0x1000 ≢ 0) ⊎ (size % 0x1000 ≢ 0) → r ≡ done (err not_aligned) s → Outcome s v size r
      proceeds : v % 0x1000 ≡ 0 → size % 0x1000 ≡ 0 → MapsRegion s v size r → Outcome s v size r

  module _ (get_paddr : ℕ → ℕ) (f : ℕ) (allow_huge : Bool) (small : f < 64)
      (accepted : a.accepts f ≡ true) where
    -- One round of the loop, and the rest.
    round :
        {s : Session S V B} (v size fuel : ℕ) (p : PageSize)
        → Fits a v (get_paddr v) size p
        → v + size ≤ space e.meta.levels
        → {r : Run (Session S V B) (Unit {0})}
        → Mapped a s (height_of p) v (page_word a (get_paddr v) p f) r
        → ((s' : Session S V B) (place' : Placement)
            → IsSession a place' s'
            → MapsRegion get_paddr f s'
                (v + size_of p)
                (size - size_of p)
                (map_loop e get_paddr f allow_huge fuel (v + size_of p) (size - size_of p) s'))
        → MapsRegion get_paddr f s v size (
            and_then r
              (λ _. map_loop e get_paddr f allow_huge fuel (v + size_of p) (size - size_of p)))
    round {s} v size fuel p fit bound (failed {s' = s1} place' u) rest = stops (record {
      place = place';
      session = u.session;
      same_table = ap (λ c. c.inner) u.same_cursor;
      outside = λ x lt out. u.same x;
      asks_old = λ x h. rw (u.same_cursor, h);
    })
    round {s} v size fuel p fit bound (mapped {s' = s1} place' free c) rest =
        extend (rest s1 place' c.session)
      where
        whole : size_of (size_at (height_of p)) ≡ size_of p
        whole = ap size_of fit.at_height

        aligned : v % size_of (size_at (height_of p)) ≡ 0
        aligned = rw (whole, fit.vaddr_aligned)

        below : v < space e.meta.levels
        below = omega (arith, bound, fit.positive, fit.within)

        joined :
            {s' : Session S V B}
            → Keeps a s1 s' (v + size_of p) (size - size_of p)
            → Keeps a s s' v size
        joined k = record {
          place = k.place;
          session = k.session;
          same_table = k.same_table ∙ c.same_table;
          outside = λ u lt out.
              k.outside u lt (ground (arith, out, fit.within))
              ∙ c.others u (
                  other-page e.meta.levels (height_of p) u v a.levels (height_of-le p) aligned lt
                    below (rw whole (ground (arith, out, fit.within))));
          asks_old = λ u h. k.asks_old u (c.asks_old u h);
        }

        first :
            {s' : Session S V B}
            → Keeps a s1 s' (v + size_of p) (size - size_of p)
            → (u : ℕ) → v ≤ u
            → u < v + size_of p
            → Covered get_paddr f s' u
        first k u from to = record {
          base = v;
          size = p;
          from = from;
          to = to;
          base_aligned = fit.vaddr_aligned;
          target_aligned = fit.paddr_aligned;
          maps =
              k.outside u (omega (arith, bound, to, fit.within)) (inl to)
              ∙ c.here u (
                  same-page e.meta.levels (height_of p) u v a.levels (height_of-le p) aligned
                    (omega (arith, bound, to, fit.within)) below from (rw whole to))
              ∙ rw (
                a.lawful.is_present-new_page (e.addr.align_down (get_paddr v) (size_of p)) f
                    (is_huge_size p) small accepted,
                fit.at_height,
              );
          flushed = k.asks_old v c.asks;
        }

        extend :
            {r : Run (Session S V B) (Unit {0})}
            → MapsRegion get_paddr f s1 (v + size_of p) (size - size_of p) r
            → MapsRegion get_paddr f s v size r
        extend (covers k inside tiled) =
            covers (joined k)
              (λ u from to. elim (dec_lt u (v + size_of p)) [
                | yes now ↦ first k u from now
                | no later ↦ inside u (omega arith) (omega (arith, fit.within))
              ])
              (tile (height_of p) (page_word a (get_paddr v) p f) (height_of-le p) aligned
                (rw whole fit.within)
                ((first k v (omega arith) (omega (arith, fit.positive))).maps ∙ rw fit.at_height)
                (rw whole tiled))
        extend (stops k) = stops (joined k)

    none_left : {s : Session S V B} {v size : ℕ} → size ≡ 0 → Tiled a s v size
    none_left {s} {v} none = subst (λ n. Tiled a s v n) (sym none) no_more

    loop :
        (fuel : ℕ) (place : Placement) (s : Session S V B) (v size : ℕ)
        → IsSession a place s
        → size < fuel * 0x1000
        → v % 0x1000 ≡ 0
        → size % 0x1000 ≡ 0
        → v + size ≤ space e.meta.levels
        → MapsRegion get_paddr f s v size (map_loop e get_paddr f allow_huge fuel v size s)
    unfolding map_loop
    loop zero place s v size t enough va sa bound = absurd (omega arith)
    loop (suc fuel) place s v size t enough va sa bound = elim (Bool-cases (size == 0)) [
      | inl finished ↦ rw finished (
          covers
            (record {
              place = place;
              session = t;
              same_table = refl;
              outside = λ u lt out. refl;
              asks_old = λ u h. h;
            })
            (λ u from to. absurd (ground (arith, finished))) (none_left (ground (arith, finished))))
      | inr left ↦
          let fit =
            choose_size-Fits a v (get_paddr v) size va sa (ground (arith, left)) allow_huge in
          rw
            (
              left,
              no_wrap (v + size_of (choose_size e allow_huge v (get_paddr v) size))
                  (omega (arith, bound, fit.within, space-small e.meta.levels a.levels)),
            )
            (round v size fuel (choose_size e allow_huge v (get_paddr v) size) fit bound
              (map-Mapped a s v (get_paddr v) (choose_size e allow_huge v (get_paddr v) size) f
                small accepted t)
              λ s' place' t'.
                loop fuel place' s' (v + size_of (choose_size e allow_huge v (get_paddr v) size))
                  (size - size_of (choose_size e allow_huge v (get_paddr v) size)) t'
                  (omega (arith, fit.positive, fit.within)) fit.next (fit.whole sa)
                  (omega (arith, fit.within)))
    ]

    -- `map_region` on a region of the translated space, with flags that make a present page: it ends,
    -- without a panic and before its rounds are used up. It fails with `NotAligned` and changes nothing
    -- where the address or the size is no multiple of 4K. Otherwise the table stays well formed on the
    -- same root and the addresses outside the region keep their answers, also after a failure. Where it
    -- succeeds, every address of the region lies in an aligned page that maps what `get_paddr` gives for
    -- the page's start, with the flags asked for, and that is to be flushed; whole pages tile the region.
    pub map_region-Outcome :
        (place : Placement) (s : Session S V B) (v size : ℕ)
        → IsSession a place s
        → v + size ≤ space e.meta.levels
        → Outcome get_paddr f s v size (map_region e v get_paddr size f allow_huge s)
    unfolding map_region
    map_region-Outcome place s v size t bound =
        elim (Bool-cases
          (not (is_aligned e.addr size_4k v) || not (is_aligned e.addr size_4k size))) [
            | inl refused ↦ rw refused (
                refuses
                  (ground
                    (arith, a.alignment.is_aligned_lem v 12, a.alignment.is_aligned_lem size 12))
                  refl)
            | inr accepted_region ↦
                let (va, sa) = both_aligned accepted_region in
                rw accepted_region
                  (proceeds va sa (loop (rounds size) place s v size t (omega arith) va sa bound))
          ]
      where
        both_aligned :
            (not (is_aligned e.addr size_4k v) || not (is_aligned e.addr size_4k size)) ≡ false
            → (v % 0x1000 ≡ 0) × (size % 0x1000 ≡ 0)
        both_aligned h =
            ground (arith, a.alignment.is_aligned_lem v 12, a.alignment.is_aligned_lem size 12)
