-- ===== src/Table64/Queries.antt =====
-- What `query` tells of a page that `map` has mapped, and `unmap` after `map`.
use mathlib.Core.Path.{subst}
use page_table_multiarch.Common.{
  ℕ, zero, suc, ◌≤◌, ◌<◌, ◌==◌, Bool-cases, arith, ◌≡◌, ◌≢◌, refl, sym, ap, ◌∙◌, true, inl, inr,
}
use page_table_multiarch.Paging.{
  PagingResult, ok, err, PageSize, size_4k, size_1m, size_2m, size_1g, size_of, is_huge_size,
  align_offset, Platform, not_mapped,
}
use page_table_multiarch.Paging.Run.{Run, done, state-same}
use page_table_multiarch.Paging.Contract.{IsPlatform}
use page_table_multiarch.Entry.Laws.{frame_of}
use page_table_multiarch.Table64.Defs.{query}
use page_table_multiarch.Table64.Height.{size_at, height_of}
use page_table_multiarch.Table64.Answer.{present, map_ok, translation, query_lem}
use page_table_multiarch.Table64.Placed.{Placement}
use page_table_multiarch.Table64.Mapped.{
  IsSession, answers, page_in, Changes, page_word, Mapped, mapped, failed, map-Mapped,
}
use page_table_multiarch.Table64.Unmapped.{Unmapped, unmapped, vacant, unmap-Unmapped}
use page_table_multiarch.Table64.Cursor.{Session, map, unmap}

pub size_at-inj : (h k : ℕ) → h ≤ 2 → k ≤ 2 → size_at h ≡ size_at k → h ≡ k
size_at-inj zero zero h k same = refl
size_at-inj zero (suc zero) h k same = absurd cc
size_at-inj zero (suc (suc k)) h l same = absurd cc
size_at-inj (suc zero) zero h k same = absurd cc
size_at-inj (suc zero) (suc zero) h k same = refl
size_at-inj (suc zero) (suc (suc k)) h l same = absurd cc
size_at-inj (suc (suc h)) zero l k same = absurd cc
size_at-inj (suc (suc h)) (suc zero) l k same = absurd cc
size_at-inj (suc (suc h)) (suc (suc k)) l m same = omega arith

pub height_of-le : (size : PageSize) → height_of size ≤ 2
height_of-le size_4k = omega arith
height_of-le size_1m = omega arith
height_of-le size_2m = omega arith
height_of-le size_1g = omega arith

module _ {S V B : Type 0} {e : Platform S V B} (a : IsPlatform e) where
  -- the answer of `query` to an address of a page that maps `target`
  abbrev pub queried : (target : ℕ) → PageSize → (flags vaddr : ℕ) → ℕ × ℕ × PageSize
  queried target size f u = (
    e.addr.add (frame_of a.width (e.addr.align_down target (size_of size)))
        (align_offset e.addr (size_at (height_of size)) u),
    a.seen f,
    size_at (height_of size),
  )

  translation-page_word :
      (target : ℕ) (size : PageSize) (f u : ℕ)
      → f < 64
      → a.accepts f ≡ true
      → map_ok (translation e u) (present e (page_word a target size f) (size_at (height_of size)))
        ≡ ok (queried target size f u)
  translation-page_word target size f u small accepted = rw (
    a.lawful.is_present-new_page (e.addr.align_down target (size_of size)) f (is_huge_size size)
        small accepted,
    a.lawful.paddr-new_page (e.addr.align_down target (size_of size)) f (is_huge_size size) small,
    a.lawful.flags-new_page (e.addr.align_down target (size_of size)) f (is_huge_size size) small
        accepted,
  )

  -- `unmap` after `map`: it ends well, gives what was mapped, and all addresses are answered as
  -- before the `map`.
  pub record Undone (s s' : Session S V B) (target : ℕ) (size : PageSize) (f u : ℕ) : Type 0 where
    pub after : Session S V B
    pub ends :
        unmap e u s'
        ≡ done
            (ok (
              frame_of a.width (e.addr.align_down target (size_of size)),
              a.seen f,
              size_at (height_of size),
            ))
            after
    pub same : (x : ℕ) → answers a after x ≡ answers a s x

  module _ (s s' : Session S V B) (v target : ℕ) (size : PageSize) (f : ℕ) (small : f < 64)
      (accepted : a.accepts f ≡ true) where
    -- `query` after a `map` that succeeded: every address of the page is translated to the target,
    -- aligned down to the page size and cut to the address field, plus the offset of the address, with
    -- the flags as the entry format reads them and the size of the page.
    pub map-query :
        (place : Placement)
        → IsSession a place s
        → map e v target size f s ≡ done (ok tt) s'
        → (u : ℕ) → page_in a (height_of size) u ≡ page_in a (height_of size) v
        → query e s'.cursor.inner u s'.world ≡ done (ok (queried target size f u)) s'.world
    map-query place t ends u same =
        query_lem e s'.cursor.inner u s'.world a.levels
        ∙ ap (λ r. done r s'.world) (from (map-Mapped a s v target size f small accepted t) ends)
      where
        from :
            {r : Run (Session S V B) (Unit {0})}
            → Mapped a s (height_of size) v (page_word a target size f) r
            → r ≡ done (ok tt) s'
            → map_ok (translation e u) (answers a s' u) ≡ ok (queried target size f u)
        from (mapped {s' = s1} place' free c) eq =
            ap (λ x. map_ok (translation e u) (answers a x u)) (sym (state-same eq))
            ∙ ap (map_ok (translation e u)) (c.here u same)
            ∙ translation-page_word target size f u small accepted
        from (failed place' same_answers) eq = absurd cc

    found_page :
        (u : ℕ) {place : Placement}
        → page_in a (height_of size) u ≡ page_in a (height_of size) v
        → Changes a place s s'
            (height_of size)
            v
            (present e (page_word a target size f) (size_at (height_of size)))
        → answers a s' u ≡ ok (page_word a target size f, size_at (height_of size))
    found_page u in_page c =
        c.here u in_page
        ∙ rw (
            a.lawful.is_present-new_page (e.addr.align_down target (size_of size)) f
              (is_huge_size size) small accepted)

    undo :
        (u : ℕ) {place : Placement} {r : Run (Session S V B) (ℕ × ℕ × PageSize)}
        → page_in a (height_of size) u ≡ page_in a (height_of size) v
        → ((x : ℕ)
            → page_in a (height_of size) x ≡ page_in a (height_of size) v
            → answers a s x ≡ err not_mapped)
        → Changes a place s s'
            (height_of size)
            v
            (present e (page_word a target size f) (size_at (height_of size)))
        → unmap e u s' ≡ r
        → Unmapped a place s' u r
        → Undone s s' target size f u
    undo u in_page free c eq (unmapped {s' = s''} h word low here d) = record {
      after = s'';
      ends =
          eq
          ∙ rw (
            same_word,
            a.lawful.paddr-new_page (e.addr.align_down target (size_of size)) f (is_huge_size size)
                small,
            a.lawful.flags-new_page (e.addr.align_down target (size_of size)) f (is_huge_size size)
                small accepted,
            same_height,
          );
      same = λ x. elim (Bool-cases (page_in a (height_of size) x == page_in a (height_of size) v)) [
        | inl inside ↦
            d.here x (
              subst (λ k. page_in a k x ≡ page_in a k u) (sym same_height)
                (ground (arith, inside, in_page)))
            ∙ sym (free x (ground (arith, inside)))
        | inr outside ↦
            d.others x (
              subst (λ k. page_in a k x ≢ page_in a k u) (sym same_height)
                (ground (arith, outside, in_page)))
            ∙ c.others x (ground (arith, outside))
      ];
    }
      where
        same_answer :
            ◌≡◌ {A = PagingResult (ℕ × PageSize)}
              (ok (word, size_at h))
              (ok (page_word a target size f, size_at (height_of size)))
        same_answer = sym (here u refl) ∙ found_page u in_page c

        same_word : word ≡ page_word a target size f
        same_word = cc same_answer

        same_height : h ≡ height_of size
        same_height = size_at-inj h (height_of size) low (height_of-le size) (cc same_answer)
    undo u {r} in_page free c eq (vacant missing same) =
        absurd (cc (missing, found_page u in_page c))

    -- `unmap` of any address of a page that `map` has just mapped succeeds, gives the frame, the flags
    -- and the size of the mapping, and leaves every address with the answer it had before the `map`.
    pub unmap-map :
        (place : Placement)
        → IsSession a place s
        → map e v target size f s ≡ done (ok tt) s'
        → (u : ℕ) → page_in a (height_of size) u ≡ page_in a (height_of size) v
        → Undone s s' target size f u
    unmap-map place t ends u same = from (map-Mapped a s v target size f small accepted t) ends
      where
        from :
            {r : Run (Session S V B) (Unit {0})}
            → Mapped a s (height_of size) v (page_word a target size f) r
            → r ≡ done (ok tt) s'
            → Undone s s' target size f u
        from (mapped {s' = s1} place' free c) eq =
            let c' =
              subst
                (λ x.
                  Changes a place' s x (height_of size) v
                    (present e (page_word a target size f) (size_at (height_of size))))
                (state-same eq) c in
            undo u same free c' refl (unmap-Unmapped a s' u c'.session)
        from (failed place' same_answers) eq = absurd cc
