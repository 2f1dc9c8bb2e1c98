-- ===== src/Table32/CopyFrom.antt =====
-- `copy_from` on two-level tables.
use page_table_multiarch.Common.{
  ℕ, ◌+◌, ◌-◌, ◌%◌, ◌^◌, ◌≤◌, ◌<◌, ◌≡◌, ◌≢◌, refl, ap, ◌∙◌, true, ltb, leb, ==_ne, arith,
}
use page_table_multiarch.Paging.{ok, Platform, full}
use page_table_multiarch.Paging.Run.{done}
use page_table_multiarch.Table32.Defs.{PageTable32, entry_at, entry_count}
use page_table_multiarch.Table32.Contract.{IsPlatform}
use page_table_multiarch.Table32.Answer.{first, top, below, answer, p1_index_lem}
use page_table_multiarch.Table32.Placed.{Owners, IsLink, first_small, answer-agree}
use page_table_multiarch.Table32.Written.{below_else}
use page_table_multiarch.Table32.Session.{root_of, IsSession, answers}
use page_table_multiarch.Table32.Copied.{Apart, Copied, Copies, copy_entries-Copies}
use page_table_multiarch.Table32.Cursor.{Session}
use page_table_multiarch.Table32.Release.{copy_from}

module _ {S V B : Type 0} {e : Platform S V B} (a : IsPlatform e) where
  open e use {pte}

  -- The other table: its entries lie apart from the root that is written, and so do those of the L2
  -- tables that it leads to.
  pub record IsSource (src dst : ℕ) (words : ℕ → ℕ) : Type 0 where
    pub roots_apart : Apart src dst
    pub tables_apart :
        (u j : ℕ)
        → IsLink a src (top e words src u)
        → j < entry_count
        → below e words src u ≢ entry_at dst j

  -- the last address of the range
  abbrev pub last_of : (start size : ℕ) → ℕ
  last_of start size = (start + size - 1) % 2 ^ 32

  -- the addresses of the megabytes that are copied, which the first and the last address lie in
  abbrev pub InRange : (start size u : ℕ) → Type 0
  InRange start size u = (first start ≤ first u) × (first u ≤ first (last_of start size))

  -- What `copy_from` has done.
  pub record CopiesFrom (src start size : ℕ) (s : Session S V) : Type 0 where
    pub after : Session S V
    pub same_root : root_of after ≡ root_of s
    pub inside : (u : ℕ) → InRange start size u → answers a after u ≡ answer e s.memory.words src u
    pub outside : (u : ℕ) → (InRange start size u → ⊥) → answers a after u ≡ answers a s u
    pub all_flushed : after.cursor.flusher ≡ full

  -- the number of entries that the loop copies
  abbrev span : (start size : ℕ) → ℕ
  span start size = first (last_of start size) + 1 - first start

  starts_below : (start : ℕ) → ltb (first start) entry_count ≡ true
  starts_below start = let small = first_small start in ground (arith, small)

  ends_below : (start size : ℕ) → leb (first (last_of start size) + 1) entry_count ≡ true
  ends_below start size = let small = first_small (last_of start size) in ground (arith, small)

  module _ (other : PageTable32) (s : Session S V) (start size : ℕ) where
    copied_range :
        IsSource other.root_paddr (root_of s) s.memory.words
        → Copies a other.root_paddr (root_of s) (first start) (span start size) s
    copied_range source =
        let small = first_small (last_of start size) in
        let small' = first_small start in
        copy_entries-Copies a other.root_paddr (root_of s) (span start size) (first start) s
          source.roots_apart (omega (arith, small, small'))

    module _ (s' : Session S V) where
      at_root :
          root_of s' ≡ root_of s → (u : ℕ) → answers a s' u ≡ answer e s'.memory.words (root_of s) u
      at_root same u = ap (λ root. answer e s'.memory.words root u) same

      copied_inside :
          IsSource other.root_paddr (root_of s) s.memory.words
          → Copied a other.root_paddr (root_of s) (first start) (span start size) s s'
          → (u : ℕ) → InRange start size u
          → answers a s' u ≡ answer e s.memory.words other.root_paddr u
      copied_inside source c u (low, high) =
          at_root c.same_root u
          ∙ answer-agree a other.root_paddr s'.memory.words s.memory.words (root_of s) u
              (c.copied (first u) low (omega arith))
              (λ link. c.kept (below e s.memory.words other.root_paddr u) (λ j from_j to_j.
                let small = first_small (last_of start size) in
                source.tables_apart u j link (omega (arith, small))))

      copied_outside :
          {owner : Owners}
          → IsSession a owner s
          → Copied a other.root_paddr (root_of s) (first start) (span start size) s s'
          → (u : ℕ) → (InRange start size u → ⊥)
          → answers a s' u ≡ answers a s u
      copied_outside t c u out =
          let small = first_small (last_of start size) in
          at_root c.same_root u
          ∙ answer-agree a (root_of s) s'.memory.words s.memory.words (root_of s) u
              (c.kept (entry_at (root_of s) (first u))
                (λ j from_j to_j same. out (omega (arith, same), omega (arith, same))))
              (λ link.
                c.kept (below e s.memory.words (root_of s) u)
                  (λ j from_j to_j. below_else a (root_of s) t u j link (omega (arith, small))))

  -- `copy_from` of a range that is not empty, from a table that lies apart from the root that is
  -- written, on a well-formed table, ends without a panic. It copies whole entries of the root, of 1M
  -- each, from that of the first to that of the last address of the range, which may reach beyond the
  -- range on both sides: the addresses of these megabytes have the entries of the other table
  -- afterwards, all other addresses keep theirs, and the whole TLB is to be flushed.
  pub copy_from-CopiesFrom32 :
      {owner : Owners} (other : PageTable32) (s : Session S V) (start size : ℕ)
      → size ≢ 0
      → IsSession a owner s
      → IsSource other.root_paddr (root_of s) s.memory.words
      → (c : CopiesFrom other.root_paddr start size s) × (copy_from e other start size s
          ≡ done (ok tt) c.after)
  unfolding copy_from
  copy_from-CopiesFrom32 other s start size more t source =
      let r = copied_range other s start size source in
      (
        record {
          after = record r.after { cursor = record r.after.cursor { flusher = full } };
          same_root = r.result.same_root;
          inside = copied_inside other s start size r.after source r.result;
          outside = copied_outside other s start size r.after t r.result;
          all_flushed = refl;
        },
        rw
            (
              ==_ne size 0 more,
              p1_index_lem,
              p1_index_lem,
              starts_below start,
              ends_below start size,
              r.ends,
            )
            refl,
      )
