-- ===== src/Table32/New.antt =====
-- `try_new`: the two-level table that it makes is well formed and maps nothing.
use page_table_multiarch.Common.{
  ℕ, ◌+◌, ◌*◌, ◌%◌, ◌<◌, ◌≡◌, refl, inl, inr, none, some, true, Option-cases, arith,
}
use page_table_multiarch.Paging.{size_1m, ok, err, Platform, no_memory, page_size_4k}
use page_table_multiarch.Paging.Run.{Run, done}
use page_table_multiarch.Table32.Defs.{
  PageTable32, Memory, entry_at, zeroed, l1_align, l1_size_pages, try_new,
}
use page_table_multiarch.Table32.Contract.{IsPlatform}
use page_table_multiarch.Table32.Answer.{first, answer}
use page_table_multiarch.Table32.Placed.{
  Owners, IsLink, IsTable, IsPlace, section, first_small, answer-unused,
}
use page_table_multiarch.Table32.Fresh.{zeroed_here}

-- no L2 table
abbrev pub no_owner : Owners
no_owner p = none

module _ {S V B : Type 0} {e : Platform S V B} (a : IsPlatform e) where
  open e use {pte, handler}

  -- A root of zeros, four live frames, maps nothing.
  pub zeroed-IsTable :
      (w : Memory S) (root : ℕ)
      → root % l1_align ≡ 0
      → ((k : ℕ) → k < l1_size_pages → a.live w.os (root + page_size_4k * k) ≡ true)
      → ((i : ℕ) → i < 4096 → w.words (entry_at root i) ≡ 0)
      → IsTable a root no_owner w
  zeroed-IsTable w root aligned live empty = record {
    root_aligned = aligned;
    root_live = live;
    linked = λ i small link. absurd (no_link i small link);
    owned_live = λ q i here. absurd (cc here);
    owned_aligned = λ q i here. absurd (cc here);
    owned_apart = λ q i here. absurd (cc here);
  }
    where
      no_link : (i : ℕ) → i < 4096 → IsLink a root (w.words (entry_at root i)) → ⊥
      no_link i small link =
          let unused = a.lawful.is_unused_lem (w.words (entry_at root i)) in
          ground (arith, empty i small, unused, link.in_use)

  -- The outcomes of `try_new`.
  pub data Made (w : Memory S) : Run (Memory S) PageTable32 → Type 0 where
    made :
        {w' : Memory S} (root : ℕ)
        → (handler.alloc_frames l1_size_pages l1_align w.os).0 ≡ some root
        → IsTable a root no_owner w'
        → ((v : ℕ) → answer e w'.words root v ≡ none)
        → w'.tlb ≡ w.tlb
        → Made w (done (ok (record { root_paddr = root; borrowed_entries = λ _. 0 })) w')
    refused :
        {w' : Memory S}
        → (handler.alloc_frames l1_size_pages l1_align w.os).0 ≡ none
        → w'.words ≡ w.words
        → w'.tlb ≡ w.tlb
        → Made w (done (err no_memory) w')

  module _ (w : Memory S) where
    no_root :
        (handler.alloc_frames l1_size_pages l1_align w.os).0 ≡ none
        → try_new e w
          ≡ done
              (err no_memory)
              (record w { os = (handler.alloc_frames l1_size_pages l1_align w.os).1 })
    unfolding try_new
    no_root failed = rw (failed, try_new)

    abbrev founded : ℕ → Memory S
    founded q = record w {
      os = (handler.alloc_frames l1_size_pages l1_align w.os).1;
      words = zeroed w.words q (l1_size_pages * page_size_4k);
    }

    new_root :
        (q : ℕ)
        → (handler.alloc_frames l1_size_pages l1_align w.os).0 ≡ some q
        → try_new e w ≡ done (ok (record { root_paddr = q; borrowed_entries = λ _. 0 })) (founded q)
    unfolding try_new
    new_root q got = rw (got, try_new)

    root_empty : (q i : ℕ) → i < 4096 → (founded q).words (entry_at q i) ≡ 0
    root_empty q i small =
        zeroed_here w.words q (l1_size_pages * page_size_4k) (entry_at q i) (omega arith)
          (omega arith)

  -- `try_new` fails with `NoMemory`, where the allocator has no block of four frames, or makes a
  -- well-formed table on the block that the allocator hands out, in which no address is mapped. No
  -- flush is made.
  pub try_new-Founded : (w : Memory S) → Made w (try_new e w)
  try_new-Founded w = elim (Option-cases (handler.alloc_frames l1_size_pages l1_align w.os).0) [
    | inl failed ↦ rw (no_root w failed) (refused failed refl refl)
    | inr (q, got) ↦ rw (new_root w q got) (
        made q got
          (zeroed-IsTable (founded w q) q (a.blocks.alloc_frames_aligned w.os q got)
            (λ k small. a.blocks.alloc_frames_live w.os q k got small) (root_empty w q))
          (λ v. answer-unused a q (nowhere q v) (unused q v)) refl)
  ]
    where
      unused : (q v : ℕ) → pte.is_unused ((founded w q).words (entry_at q (first v))) ≡ true
      unused q v = rw (root_empty w q (first v) (first_small v), a.lawful.is_unused_lem 0) refl

      nowhere : (q v : ℕ) → IsPlace a q (founded w q).words v size_1m (entry_at q (first v))
      nowhere q v = section (inl (unused q v))
