-- ===== src/Table64/CopyFrom.antt =====
-- `copy_from`: the addresses of the range are answered as in the other table.
use mathlib.Core.Path.{subst}
use page_table_multiarch.Common.{
  ℕ, zero, suc, ◌+◌, ◌-◌, ◌^◌, ◌≤◌, ◌<◌, ◌≡◌, ◌≢◌, refl, sym, ap, ◌∙◌, ◌⊎◌, inl, inr, true, false,
  ◌&&◌, none, some, ◌==◌, ltb, leb, if◌then◌else◌, ==_refl, ==_ne, arith,
}
use page_table_multiarch.Paging.{ok, Platform, full}
use page_table_multiarch.Paging.Run.{Run, done, and_then}
use page_table_multiarch.Paging.Contract.{IsPlatform}
use page_table_multiarch.Table64.Defs.{PageTable64, entry_count, next_table}
use page_table_multiarch.Table64.Height.{
  page_number, index_at, route, index_at-lt, route_top, size_at, p3_index-index_at,
  p4_index-index_at,
}
use page_table_multiarch.Table64.Answer.{Memory, answer, answer-eq, follow-eq, is_leaf, present}
use page_table_multiarch.Table64.Placed.{Placement, IsPlaced, next_placed}
use page_table_multiarch.Table64.Create.{IsTable}
use page_table_multiarch.Table64.Pages.{space, space-small, no_wrap}
use page_table_multiarch.Table64.Mapped.{root_of, IsSession, answers}
use page_table_multiarch.Table64.Cursor.{Session}
use page_table_multiarch.Table64.Copy.{copy_entries, copy_from}
use page_table_multiarch.Table64.Copied.{Copies, copies, copy_entries-Copies}

module _ {S V B : Type 0} (e : Platform S V B) where
  -- Descents from two tables agree if they read the same entry and agree where it leads.
  answer-same_entry :
      (h p p' v : ℕ) (m m' : Memory)
      → m p (index_at (suc h) v) ≡ m' p' (index_at (suc h) v)
      → ((q : ℕ)
          → next_table e (m' p' (index_at (suc h) v)) ≡ ok q
          → answer e h m q v ≡ answer e h m' q v)
      → answer e (suc h) m p v ≡ answer e (suc h) m' p' v
  unfolding answer
  answer-same_entry h p p' v m m' word below = rw word (
      ap
        (λ r.
          if is_leaf e (suc h) (m' p' (index_at (suc h) v))
          then present e (m' p' (index_at (suc h) v)) (size_at (suc h))
          else r)
        (follow-eq (next_table e (m' p' (index_at (suc h) v))) (λ q. answer e h m q v)
          (λ q. answer e h m' q v) below))

  -- A memory that differs in the frame `dst` alone, which is no table below the root.
  module _ {top root dst : ℕ} {place : Placement} {mem mem' : Memory}
      (placed : IsPlaced e top root place mem)
      (apart : (k x : ℕ) → k < top → place dst ≢ some (k, x))
      (same : (p i : ℕ) → p ≢ dst → mem' p i ≡ mem p i) where
    answer-elsewhere :
        (h p v : ℕ)
        → h < top
        → place p ≡ some (h, route top h v)
        → answer e h mem' p v ≡ answer e h mem p v
    answer-elsewhere zero p v lt here =
        unfold answer in rw (same p (index_at 0 v) (λ eq. apart 0 _ lt (ap place (sym eq) ∙ here)))
    answer-elsewhere (suc h) p v lt here =
        answer-eq e h p v mem' mem
          (same p (index_at (suc h) v) (λ eq. apart (suc h) _ lt (ap place (sym eq) ∙ here)))
          λ q link.
            answer-elsewhere h q v (omega arith)
              (next_placed e placed h p v q (omega arith) here link)

    -- A table whose entry for the address is that of the root.
    answer-copied :
        (h p v : ℕ)
        → top ≡ suc h
        → mem' p (index_at top v) ≡ mem root (index_at top v)
        → answer e top mem' p v ≡ answer e top mem root v
    answer-copied h p v eq word = rw eq (
        answer-same_entry h p root v mem' mem
          (subst (λ t. mem' p (index_at t v) ≡ mem root (index_at t v)) eq word)
          λ q link. answer-elsewhere h q v (omega (arith, eq)) (
            next_placed e placed h root v q (omega (arith, eq))
              (placed.at_root
                ∙ ap (λ r. some (top, r)) (sym (route_top top v))
                ∙ ap (λ k. some (k, route top k v)) eq)
              link))

-- In the translated space the index in the root table grows with the address.
index-grows :
    (levels u v : ℕ)
    → (levels ≡ 3) ⊎ (levels ≡ 4)
    → u ≤ v
    → v < space levels
    → index_at (levels - 1) u ≤ index_at (levels - 1) v
unfolding index_at page_number
index-grows levels u v (inl l) le small = rw l (three (subst (λ n. v < space n) l small))
  where
    three : v < space 3 → index_at 2 u ≤ index_at 2 v
    three small = omega arith
index-grows levels u v (inr l) le small = rw l (four (subst (λ n. v < space n) l small))
  where
    four : v < space 4 → index_at 3 u ≤ index_at 3 v
    four small = omega arith

module _ {S V B : Type 0} {e : Platform S V B} (a : IsPlatform e) where
  abbrev top : ℕ
  top = e.meta.levels - 1

  pub record CopiesFrom (s s' : Session S V B) (other start size : ℕ) : Type 0 where
    pub here :
        (v : ℕ)
        → start ≤ v
        → v < start + size
        → answers a s' v ≡ answer e (e.meta.levels - 1) s.world.mem other v
    pub others :
        (v : ℕ)
        → (index_at (e.meta.levels - 1) v < index_at (e.meta.levels - 1) start)
          ⊎ (index_at (e.meta.levels - 1) (start + size - 1) < index_at (e.meta.levels - 1) v)
        → answers a s' v ≡ answers a s v
    pub same_root : root_of a s' ≡ root_of a s
    pub flushes_all : s'.cursor.flusher ≡ full

  module _ (s : Session S V B) (other : PageTable64 B) (start size : ℕ) where
    abbrev first : ℕ
    first = index_at top start

    abbrev last : ℕ
    last = index_at top (start + size - 1)

    copy_from-copy_entries :
        0 < size
        → start + size ≤ space e.meta.levels
        → copy_from e other start size s
          ≡ and_then
              (copy_entries e other.root_paddr (root_of a s) (last + 1 - first) first s)
              (λ _ s'. done (ok tt) (record s' { cursor = record s'.cursor { flusher = full } }))
    unfolding copy_from
    copy_from-copy_entries some_size bound = elim a.levels [
      | inl l ↦ rw (
        some_left,
        no_wrap (start + size - 1) (in_space (inl l)),
        l,
        p3_index-index_at start,
        p3_index-index_at (start + size - 1),
        below 2 start,
        within 2 (start + size - 1),
      )
      | inr l ↦ rw (
        some_left,
        no_wrap (start + size - 1) (in_space (inr l)),
        l,
        p4_index-index_at start,
        p4_index-index_at (start + size - 1),
        below 3 start,
        within 3 (start + size - 1),
      )
    ]
      where
        some_left : (size == 0) ≡ false
        some_left = ground (arith, some_size)

        in_space : (e.meta.levels ≡ 3) ⊎ (e.meta.levels ≡ 4) → start + size - 1 ≤ 2 ^ 48
        in_space l = omega (arith, bound, space-small e.meta.levels l)

        below : (h v : ℕ) → ltb (index_at h v) entry_count ≡ true
        below h v = ground (arith, index_at-lt h v)

        within : (h v : ℕ) → leb (index_at h v + 1) entry_count ≡ true
        within h v = ground (arith, index_at-lt h v)

    module _ (place place' : Placement) (t : IsSession a place s)
        (t' : IsTable a other.root_paddr place' s.world) (apart : place' (root_of a s) ≡ none)
        (some_size : 0 < size) (bound : start + size ≤ space e.meta.levels) where
      one_below : top ≡ suc (top - 1)
      one_below = omega (arith, a.levels)

      same :
          {mem' : Memory}
          → ((p j : ℕ)
              → mem' p j ≡ (
                  if (p == root_of a s) && (leb first j && ltb j (first + (last + 1 - first)))
                  then s.world.mem other.root_paddr j
                  else s.world.mem p j))
          → (p i : ℕ) → p ≢ root_of a s
          → mem' p i ≡ s.world.mem p i
      same entries p i ne = entries p i ∙ rw (==_ne p (root_of a s) ne)

      inside :
          (v : ℕ)
          → start ≤ v
          → v < start + size
          → (leb first (index_at top v) && ltb (index_at top v) (first + (last + 1 - first))) ≡ true
      inside v lo hi = ground (
        arith,
        index-grows e.meta.levels start v a.levels lo (omega (arith, bound, hi)),
        index-grows e.meta.levels v (start + size - 1) a.levels (omega (arith, hi))
            (omega (arith, bound, some_size)),
      )

      outside :
          (v : ℕ)
          → (index_at top v < first) ⊎ (last < index_at top v)
          → (leb first (index_at top v) && ltb (index_at top v) (first + (last + 1 - first)))
            ≡ false
      outside v out = ground (
        arith,
        out,
        index-grows e.meta.levels start (start + size - 1) a.levels (omega (arith, some_size))
            (omega (arith, bound, some_size)),
      )

      from :
          {r : Run (Session S V B) (Unit {0})}
          → Copies e s other.root_paddr (root_of a s) (last + 1 - first) first r
          → (s' : Session S V B) × (and_then r
                (λ _ x. done (ok tt) (record x { cursor = record x.cursor { flusher = full } }))
              ≡ done (ok tt) s')
            × CopiesFrom s s' other.root_paddr start size
      from (copies {s' = s1} entries root tlb) = (
        record s1 { cursor = record s1.cursor { flusher = full } },
        refl,
        record {
          here = λ v lo hi.
              ap (λ r. answer e top s1.world.mem r v) root
              ∙ answer-copied e t'.placed (λ k x lt there. cc (apart, there)) (same entries)
                  (top - 1) (root_of a s) v one_below
                  (entries (root_of a s) (index_at top v)
                    ∙ rw (==_refl (root_of a s), inside v lo hi));
          others = λ v out.
              ap (λ r. answer e top s1.world.mem r v) root
              ∙ answer-copied e t.placed
                  (λ k x lt there. absurd (ground (arith, t.placed.at_root, there))) (same entries)
                  (top - 1) (root_of a s) v one_below
                  (entries (root_of a s) (index_at top v)
                    ∙ rw (==_refl (root_of a s), outside v out));
          same_root = root;
          flushes_all = refl;
        },
      )

      -- `copy_from` of a range of the translated space that is not empty, from a well-formed table
      -- that does not hold the root of this one: it ends without a panic. Every address of the range
      -- is answered as in the other table, addresses whose index in the root table is outside that
      -- of the range are answered as before, the root stays, and the whole TLB is to be flushed.
      pub copy_from-CopiesFrom :
          (s' : Session S V B) × (copy_from e other start size s ≡ done (ok tt) s')
          × CopiesFrom s s' other.root_paddr start size
      copy_from-CopiesFrom =
          let (s', ends, copied) = from (
            copy_entries-Copies e (ground (arith, a.levels)) other.root_paddr (root_of a s)
              (last + 1 - first) first s) in
          (s', copy_from-copy_entries some_size bound ∙ ends, copied)
