-- ===== src/Table64/Progress.antt =====
-- Where the way of an address is free and frames are to be had, `map` succeeds.
use native.Mathlib.Decide.{dec_lt}
use page_table_multiarch.Common.{
  ℕ, zero, suc, ◌-◌, ◌≤◌, ◌<◌, ◌≡◌, ◌≢◌, refl, sym, ap, ◌∙◌, inl, inr, true, false, none, some,
  ◌==◌, Bool-cases, Option-cases, ==_iff, arith,
}
use page_table_multiarch.Paging.{ok, PageSize, Platform, World}
use page_table_multiarch.Paging.Run.{Run, done}
use page_table_multiarch.Paging.Contract.{IsPlatform}
use page_table_multiarch.Table64.Defs.{Slot, slot, next_table}
use page_table_multiarch.Table64.Height.{
  index_at, route, index_at-lt, route_step, route_top, height_of,
}
use page_table_multiarch.Table64.Answer.{Memory}
use page_table_multiarch.Table64.Placed.{Placement, next_placed}
use page_table_multiarch.Table64.Link.{next_table-zero}
use page_table_multiarch.Table64.Create.{top, IsTable, existing, new_frame, new_frame-empty}
use page_table_multiarch.Table64.Descend.{create, get_entry_mut_or_create-create}
use page_table_multiarch.Table64.Flush.{push-IsPushed}
use page_table_multiarch.Table64.Mapped.{root_of, IsSession, page_word, stored}
use page_table_multiarch.Table64.Cursor.{Session, map}

module _ {S V B : Type 0} {e : Platform S V B} (a : IsPlatform e) where
  -- The allocator has at least so many frames, one after the other.
  abbrev pub Supplies : ℕ → S → Type 0
  Supplies zero s = Unit
  Supplies (suc n) s = ((e.handler.alloc_frame s).0 ≢ none) × Supplies n (e.handler.alloc_frame s).1

  Supplies-less : (n : ℕ) (s : S) → Supplies (suc n) s → Supplies n s
  Supplies-less zero s frames = tt
  Supplies-less (suc n) s frames = (frames.0, Supplies-less n (e.handler.alloc_frame s).1 frames.1)

  -- From a table at a height, links lead down to an unused entry at the height `target`, or to an
  -- unused entry above it.
  pub data IsFree (mem : Memory) (target v : ℕ) : (height table : ℕ) → Type 0 where
    free_entry : {h p : ℕ} → h ≡ target → mem p (index_at h v) ≡ 0 → IsFree mem target v h p
    no_table :
        {h p : ℕ} → target ≤ h → mem p (index_at (suc h) v) ≡ 0 → IsFree mem target v (suc h) p
    linked :
        {h p q : ℕ}
        → target ≤ h
        → next_table e (mem p (index_at (suc h) v)) ≡ ok q
        → IsFree mem target v h q
        → IsFree mem target v (suc h) p

  module _ (target v : ℕ) where
    empty-IsFree :
        {mem : Memory} (h p : ℕ) → target ≤ h → ((i : ℕ) → mem p i ≡ 0) → IsFree mem target v h p
    empty-IsFree {mem} h p le empty = split h le (dec_lt target h)
      where
        split : (h : ℕ) → target ≤ h → Dec (target < h) → IsFree mem target v h p
        split h le (no same) = free_entry (omega arith) (empty (index_at h v))
        split zero le (yes below) = absurd (omega arith)
        split (suc h) le (yes below) = no_table (omega arith) (empty (index_at (suc h) v))

    -- An unused entry at the end.
    record Ends (r : Run (World S) Slot) : Type 0 where
      entry : Slot
      world : World S
      ends : r ≡ done (ok entry) world
      unused : world.mem entry.frame entry.index ≡ 0

    module _ (root : ℕ) where
      unused-test : (word : ℕ) → word ≡ 0 → e.pte.is_unused word ≡ true
      unused-test word zeroed = ground (arith, a.lawful.is_unused_lem word)

      used-test : (word q : ℕ) → next_table e word ≡ ok q → e.pte.is_unused word ≡ false
      used-test word q link = elim (Bool-cases (e.pte.is_unused word)) [
        | inr used ↦ used
        | inl unused ↦
            absurd (cc (ap (next_table e) (is_zero unused), link, next_table-zero e a.lawful))
      ]
        where
          is_zero : e.pte.is_unused word ≡ true → word ≡ 0
          is_zero unused = ground (arith, a.lawful.is_unused_lem word)

      above : (h : ℕ) → target ≤ h → (suc h == target) ≡ false
      above h low = ground arith

      create-Ends :
          (h p : ℕ) (place : Placement) (w : World S)
          → Supplies h w.os
          → IsTable a root place w
          → h ≤ top a root
          → place p ≡ some (h, route (top a root) h v)
          → IsFree w.mem target v h p
          → Ends (create a root target h p v w)
      unfolding create
      create-Ends zero p place w frames t le here (free_entry same unused) = record {
        entry = slot p (index_at 0 v);
        world = w;
        ends = refl;
        unused = unused;
      }
      create-Ends (suc h) p place w frames t le here (free_entry same unused) =
          rw ((==_iff (suc h) target).1 same) (record {
            entry = slot p (index_at (suc h) v);
            world = w;
            ends = refl;
            unused = unused;
          })
      create-Ends (suc h) p place w frames t le here (linked {q} low link rest) =
          rw
            (
              above h low,
              existing a root w (slot p (index_at (suc h) v)) (used-test _ q link),
              link,
            )
            (create-Ends h q place w (Supplies-less h w.os frames) t (omega arith)
              (next_placed e t.placed h p v q le here link) rest)
      create-Ends (suc h) p place w frames t le here (no_table low unused) =
          elim (Option-cases (e.handler.alloc_frame w.os).0) [
            | inl failed ↦ absurd (frames.0 failed)
            | inr (q, got) ↦
                let (place', t', there, empty) =
                  new_frame-empty a root place w (slot p (index_at (suc h) v)) h
                    (route (top a root) (suc h) v) t here (index_at-lt (suc h) v) q unused got in
                rw
                  (
                    above h low,
                    new_frame a root w (slot p (index_at (suc h) v)) q (unused-test _ unused) got,
                  )
                  (create-Ends h q place' _ frames.1 t' (omega arith)
                    (there ∙ ap (λ x. some (h, x)) (sym (route_step (top a root) h v le)))
                    (empty-IsFree h q low empty))
          ]

  -- `map` succeeds on a well-formed table where the allocator has a frame for each level below the
  -- root, and links lead from the root to an unused entry for the page, or to an unused entry above it.
  pub map_succeeds :
      {place : Placement} (s : Session S V B) (v target : ℕ) (size : PageSize) (f : ℕ)
      → Supplies (e.meta.levels - 1) s.world.os
      → IsSession a place s
      → IsFree s.world.mem (height_of size) v (e.meta.levels - 1) (root_of a s)
      → (s' : Session S V B) × (map e v target size f s ≡ done (ok tt) s')
  unfolding map
  map_succeeds {place} s v target size f frames t free =
      let c =
        create-Ends (height_of size) v (root_of a s) (e.meta.levels - 1) (root_of a s) place s.world
          frames t (omega arith)
          (t.placed.at_root
            ∙ ap (λ r. some (e.meta.levels - 1, r)) (sym (route_top (e.meta.levels - 1) v)))
          free in
      rw
        (
          get_entry_mut_or_create-create a (root_of a s) s.cursor.inner v size s.world a.levels,
          c.ends,
          unused-test (height_of size) v (root_of a s) _ c.unused,
        )
        (
          _,
          (push-IsPushed e a.bounded v
              (stored a (record s { world = c.world }) c.entry (page_word a target size f))).ends,
        )
