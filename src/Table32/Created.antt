-- ===== src/Table32/Created.antt =====
-- `get_entry_mut_or_create` on each of its ways.
use page_table_multiarch.Common.{ℕ, ◌≡◌, refl, none, some, true, false}
use page_table_multiarch.Paging.{ok, err, size_4k, size_1m, Platform, no_memory, already_mapped}
use page_table_multiarch.Paging.Run.{done}
use page_table_multiarch.Table32.Defs.{
  PageTable32, Memory, entry_at, create_table, get_entry_mut_or_create,
}
use page_table_multiarch.Table32.Contract.{IsPlatform}
use page_table_multiarch.Table32.Answer.{first, top, below, p1_index_lem, p2_index_lem}
use page_table_multiarch.Table32.Placed.{IsLink}
use page_table_multiarch.Table32.Fresh.{extended}

module _ {S V B : Type 0} {e : Platform S V B} (a : IsPlatform e) (t : PageTable32) (v : ℕ)
    (w : Memory S) where
  open e use {pte, handler}

  abbrev root : ℕ
  root = t.root_paddr

  pub create-section :
      get_entry_mut_or_create e t v size_1m w ≡ done (ok (entry_at root (first v))) w
  unfolding get_entry_mut_or_create
  create-section = rw p1_index_lem refl

  pub create-no_frame :
      pte.is_unused (top e w.words root v) ≡ true
      → (handler.alloc_frame w.os).0 ≡ none
      → get_entry_mut_or_create e t v size_4k w
        ≡ done (err no_memory) (record w { os = (handler.alloc_frame w.os).1 })
  unfolding get_entry_mut_or_create create_table
  create-no_frame unused failed = rw (p1_index_lem, unused, create_table, failed) refl

  pub create-table :
      (q : ℕ)
      → pte.is_unused (top e w.words root v) ≡ true
      → (handler.alloc_frame w.os).0 ≡ some q
      → get_entry_mut_or_create e t v size_4k w
        ≡ done
            (ok (below e (extended a root w q (first v)).words root v))
            (extended a root w q (first v))
  unfolding get_entry_mut_or_create create_table
  create-table q unused got =
      rw (p1_index_lem, p2_index_lem, unused, create_table, got, p1_index_lem) refl

  pub create-in_section :
      pte.is_unused (top e w.words root v) ≡ false
      → pte.is_huge (top e w.words root v) ≡ true
      → get_entry_mut_or_create e t v size_4k w ≡ done (err already_mapped) w
  unfolding get_entry_mut_or_create
  create-in_section in_use huge = rw (p1_index_lem, in_use, huge) refl

  pub create-linked :
      IsLink a root (top e w.words root v)
      → get_entry_mut_or_create e t v size_4k w ≡ done (ok (below e w.words root v)) w
  unfolding get_entry_mut_or_create
  create-linked link = rw (p1_index_lem, p2_index_lem, link.in_use, link.no_section) refl
