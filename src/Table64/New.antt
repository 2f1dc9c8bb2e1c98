-- ===== src/Table64/New.antt =====
-- `try_new`: the table that it makes is well formed and maps nothing.
use page_table_multiarch.Common.{
  ℕ, suc, ◌-◌, ◌≡◌, refl, ap, ◌∙◌, inl, inr, true, none, some, ◌==◌, if◌then◌else◌, ==_refl,
  Option-cases, arith,
}
use page_table_multiarch.Paging.{ok, err, Platform, World, no_memory, not_mapped}
use page_table_multiarch.Paging.Run.{Run, done}
use page_table_multiarch.Paging.Contract.{IsPlatform}
use page_table_multiarch.Table64.Defs.{PageTable64, next_table, zeroed, try_new}
use page_table_multiarch.Table64.Answer.{answer}
use page_table_multiarch.Table64.Placed.{Placement}
use page_table_multiarch.Table64.Link.{next_table-zero, answer-unused}
use page_table_multiarch.Table64.Create.{IsTable}

module _ {S V B : Type 0} {e : Platform S V B} (a : IsPlatform e) where
  -- the root alone
  abbrev pub at_root : ℕ → Placement
  at_root root p = if p == root then some (e.meta.levels - 1, 0) else none

  -- A frame of zeros that the allocator counts as handed out is a table that maps nothing.
  pub zeroed-IsTable :
      (w : World S) (root : ℕ)
      → ((i : ℕ) → w.mem root i ≡ 0)
      → a.live w.os root ≡ true
      → IsTable a root (at_root root) w
  zeroed-IsTable w root empty live = record {
    placed = record {
      at_root = rw (==_refl root);
      below = λ p h x i q here lt link.
          absurd (cc (ap (next_table e) (entry p h x i here), link, next_table-zero e a.lawful));
    };
    in_use = λ p h x here. ground (arith, live);
  }
    where
      entry : (p h x i : ℕ) → at_root root p ≡ some (suc h, x) → w.mem p i ≡ 0
      entry p h x i here = ground (arith, empty i)

  -- The outcomes of `try_new`.
  pub data Made (w : World S) : Run (World S) (PageTable64 B) → Type 0 where
    made :
        {w' : World S} (root : ℕ)
        → (e.handler.alloc_frame w.os).0 ≡ some root
        → IsTable a root (at_root root) w'
        → ((v : ℕ) → answer e (e.meta.levels - 1) w'.mem root v ≡ err not_mapped)
        → w'.tlb ≡ w.tlb
        → Made w (done (ok (record { root_paddr = root; borrowed_entries = e.bitmap.new })) w')
    refused :
        {w' : World S}
        → (e.handler.alloc_frame w.os).0 ≡ none
        → w'.mem ≡ w.mem
        → w'.tlb ≡ w.tlb
        → Made w (done (err no_memory) w')

  module _ (w : World S) where
    no_root :
        (e.handler.alloc_frame w.os).0 ≡ none
        → try_new e w ≡ done (err no_memory) (record w { os = (e.handler.alloc_frame w.os).1 })
    unfolding try_new
    no_root failed = ground arith

    new_root :
        (q : ℕ)
        → (e.handler.alloc_frame w.os).0 ≡ some q
        → try_new e w
          ≡ done
              (ok (record { root_paddr = q; borrowed_entries = e.bitmap.new }))
              (record w { os = (e.handler.alloc_frame w.os).1; mem = zeroed w.mem q })
    unfolding try_new
    new_root q got = ground arith

  -- `try_new` fails with `NoMemory`, where the allocator has no frame, or makes a well-formed table
  -- on the frame that the allocator hands out, in which no address is mapped. No flush is made.
  pub try_new-Made : (w : World S) → Made w (try_new e w)
  try_new-Made w = elim (Option-cases (e.handler.alloc_frame w.os).0) [
    | inl failed ↦ rw (no_root w failed) (refused failed refl refl)
    | inr (q, got) ↦ rw (new_root w q got) (
        made q got
          (zeroed-IsTable _ q (λ i. rw (==_refl q))
            (a.allocator.alloc_frame_live w.os q q got ∙ rw (==_refl q)))
          (λ v. answer-unused e a.lawful (e.meta.levels - 1) q v (zeroed w.mem q) (rw (==_refl q)))
          refl)
  ]
