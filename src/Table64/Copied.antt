-- ===== src/Table64/Copied.antt =====
-- `copy_from`: the addresses of the range get the answers of the other table.
use page_table_multiarch.Common.{
  ℕ, zero, suc, ◌+◌, ◌-◌, ◌≤◌, ◌<◌, ◌≡◌, refl, ◌∙◌, inl, inr, Bool, true, false, not, ◌&&◌, ◌==◌,
  ltb, leb, if◌then◌else◌, Bool-cases, arith,
}
use page_table_multiarch.Paging.{ok, Platform, World}
use page_table_multiarch.Paging.Run.{Run, done, Cmd, pure, and_then, is_ok, ◌>>=◌, ◌>>◌}
use page_table_multiarch.Table64.Defs.{entry_count, slot, store, next_table}
use page_table_multiarch.Table64.Release.{dealloc_frame, dealloc_entries, dealloc_tree}
use page_table_multiarch.Table64.Cursor.{Session, in_session, load, store_entry}
use page_table_multiarch.Table64.Copy.{copy_entry, copy_entries}

module _ {S V B : Type 0} (e : Platform S V B) where
  -- A release changes the allocator alone.
  pub data Releases (w : World S) : Run (World S) (Unit {0}) → Type 0 where
    releases : (os : S) → Releases w (done (ok tt) (record w { os = os }))

  Releases-then :
      {w : World S} {r : Run (World S) (Unit {0})} (k : Cmd (World S) (Unit {0}))
      → Releases w r
      → ((os : S) → Releases w (k (record w { os = os })))
      → Releases w (and_then r (λ _. k))
  Releases-then k (releases os) rest = rest os

  Releases-entries :
      (inner : ℕ → Cmd (World S) (Unit {0}))
      → ((q : ℕ) (w : World S) → Releases w (inner q w))
      → (skip : ℕ → Bool) (table left i : ℕ) (w : World S)
      → Releases w (dealloc_entries e inner skip table left i w)
  unfolding dealloc_entries
  Releases-entries inner ends skip table zero i w = releases w.os
  Releases-entries inner ends skip table (suc left) i w =
      Releases-then (dealloc_entries e inner skip table left (i + 1))
        (choose (not (skip i) && is_ok (next_table e (w.mem table i))))
        λ os. again os (Releases-entries inner ends skip table left (i + 1) (record w { os = os }))
    where
      again :
          (os : S) {r : Run (World S) (Unit {0})} → Releases (record w { os = os }) r → Releases w r
      again os (releases os') = releases os'

      choose :
          (b : Bool) → Releases w ((if b then inner (e.pte.paddr (w.mem table i)) else pure tt) w)
      choose true = ends (e.pte.paddr (w.mem table i)) w
      choose false = releases w.os

  Releases-frame :
      (b : Bool) (m : Cmd (World S) (Unit {0})) (p : ℕ) (w : World S)
      → (b ≡ true → Releases w (m w))
      → Releases w (((if b then m else pure tt) >> dealloc_frame e p) w)
  Releases-frame true m p w ends =
      Releases-then (dealloc_frame e p) (ends refl) λ os. releases (e.handler.dealloc_frame p os)
  Releases-frame false m p w ends = releases (e.handler.dealloc_frame p w.os)

  -- `dealloc_tree` ends before its fuel is used up.
  pub dealloc_tree-Releases :
      (fuel p level : ℕ) (w : World S)
      → e.meta.levels ≤ fuel + level
      → 0 < fuel
      → Releases w (dealloc_tree e fuel p level w)
  unfolding dealloc_tree
  dealloc_tree-Releases zero p level w enough some_fuel = absurd (omega arith)
  dealloc_tree-Releases (suc fuel) p level w enough some_fuel =
      Releases-frame (ltb level (e.meta.levels - 1))
        (dealloc_entries e (λ next. dealloc_tree e fuel next (level + 1)) (λ _. false) p entry_count
          0)
        p w
        λ inner.
          Releases-entries (λ next. dealloc_tree e fuel next (level + 1))
            (λ q w'.
              dealloc_tree-Releases fuel q (level + 1) w' (omega arith) (ground (arith, inner)))
            (λ _. false) p entry_count 0 w

  -- One entry is copied; the allocator and the borrowed entries may have changed.
  data CopiesOne (s : Session S V B) (src dst i : ℕ) : Run (Session S V B) (Unit {0}) → Type 0 where
    one :
        (os : S) (b : B)
        → CopiesOne s src dst i (
            done (ok tt) (record {
              cursor = record s.cursor { inner = record s.cursor.inner { borrowed_entries = b } };
              world = record s.world {
                os = os;
                mem = store s.world.mem (slot dst i) (s.world.mem src i);
              };
            }))

  copy_entry-CopiesOne :
      0 < e.meta.levels
      → (src dst i : ℕ) (s : Session S V B) → CopiesOne s src dst i (copy_entry e src dst i s)
  unfolding copy_entry
  copy_entry-CopiesOne some_level src dst i s =
      elim (Bool-cases (not (set_at.0) && is_ok (next_table e (s.world.mem dst i)))) [
        | inr keep ↦ rw keep (one s.world.os set_at.1)
        | inl free ↦ rw free (
            from (
              dealloc_tree-Releases e.meta.levels (e.pte.paddr (s.world.mem dst i)) 1 s.world
                (omega arith) some_level))
      ]
    where
      set_at : Bool × B
      set_at = e.bitmap.set s.cursor.inner.borrowed_entries i true

      from :
          {r : Run (World S) (Unit {0})}
          → Releases s.world r
          → CopiesOne s src dst i (
              and_then
                (in_session
                  (record s.cursor {
                    inner = record s.cursor.inner { borrowed_entries = set_at.1 };
                  })
                  r)
                (λ _. do copied ← load e (slot src i); store_entry e (slot dst i) copied))
      from (releases os) = one os set_at.1

  -- The entries from `i` on, `n` of them, are those of the other table.
  pub data Copies (s : Session S V B) (src dst n i : ℕ)
      : Run (Session S V B) (Unit {0}) → Type 0 where
    copies :
        {s' : Session S V B}
        → ((p j : ℕ)
            → s'.world.mem p j ≡ (
                if (p == dst) && (leb i j && ltb j (i + n))
                then s.world.mem src j
                else s.world.mem p j))
        → s'.cursor.inner.root_paddr ≡ s.cursor.inner.root_paddr
        → s'.world.tlb ≡ s.world.tlb
        → Copies s src dst n i (done (ok tt) s')

  pub copy_entries-Copies :
      0 < e.meta.levels
      → (src dst n i : ℕ) (s : Session S V B) → Copies s src dst n i (copy_entries e src dst n i s)
  unfolding copy_entries
  copy_entries-Copies some_level src dst zero i s = copies (λ p j. ground arith) refl refl
  copy_entries-Copies some_level src dst (suc n) i s =
      from (copy_entries-Copies some_level src dst n (i + 1))
        (copy_entry-CopiesOne some_level src dst i s)
    where
      more :
          {s1 : Session S V B} {r : Run (Session S V B) (Unit {0})}
          → s1.world.mem ≡ store s.world.mem (slot dst i) (s.world.mem src i)
          → s1.cursor.inner.root_paddr ≡ s.cursor.inner.root_paddr
          → s1.world.tlb ≡ s.world.tlb
          → Copies s1 src dst n (i + 1) r
          → Copies s src dst (suc n) i r
      more mem root tlb (copies entries root' tlb') =
          copies (λ p j. entries p j ∙ rw mem (ground arith)) (root' ∙ root) (tlb' ∙ tlb)

      from :
          {r : Run (Session S V B) (Unit {0})}
          → ((s1 : Session S V B)
              → Copies s1 src dst n (i + 1) (copy_entries e src dst n (i + 1) s1))
          → CopiesOne s src dst i r
          → Copies s src dst (suc n) i (and_then r (λ _. copy_entries e src dst n (i + 1)))
      from rest (one os b) = more refl refl refl (rest _)
