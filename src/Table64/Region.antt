-- ===== src/Table64/Region.antt =====
-- bits64.rs: `map_region`, `unmap_region` and `protect_region`. Each loop takes off at least one
-- 4K page a round and is given `rounds size` rounds. The sum of an address and a page size wraps,
-- as in a release build; a trace message of the sum `vaddr + size` is left out.
use page_table_multiarch.Common.{
  ℕ, zero, suc, ◌+◌, ◌-◌, ◌/◌, ◌%◌, ◌^◌, Bool, not, ◌&&◌, ◌||◌, leb, ◌==◌, if◌then◌else◌,
}
use page_table_multiarch.Paging.{
  ok, err, PageSize, size_4k, size_2m, size_1g, size_of, is_huge_size, is_aligned, Platform,
  no_memory, not_aligned, not_mapped, already_mapped, mapped_to_huge_page,
}
use page_table_multiarch.Paging.Run.{
  Run, done, panic, out_of_fuel, Cmd, pure, throw, assert, ◌>>=◌, ◌>>◌,
}
use page_table_multiarch.Table64.Defs.{Slot, get_entry_mut}
use page_table_multiarch.Table64.Cursor.{Session, inner, load, store_entry, push, map, unmap}

abbrev pub rounds : ℕ → ℕ
rounds size = size / 0x1000 + 1

module _ {S V B : Type 0} (e : Platform S V B) where
  open e use {meta, pte, addr}

  unfoldable pub choose_size : (allow_huge : Bool) (vaddr paddr size : ℕ) → PageSize
  choose_size allow_huge vaddr paddr size =
      let fits = λ (p : PageSize).
        is_aligned addr p vaddr && is_aligned addr p paddr && leb (size_of p) size in
      if allow_huge
      then if fits size_1g then size_1g else if fits size_2m then size_2m else size_4k
      else size_4k

  unfoldable pub map_loop :
      (get_paddr : ℕ → ℕ) (flags : ℕ) (allow_huge : Bool) (fuel vaddr size : ℕ)
      → Cmd (Session S V B) (Unit {0})
  unfolding map choose_size
  map_loop get_paddr flags allow_huge zero vaddr size = λ _. out_of_fuel
  map_loop get_paddr flags allow_huge (suc fuel) vaddr size =
      let paddr = get_paddr vaddr in
      let page_size = choose_size allow_huge vaddr paddr size in
      let rest =
        map_loop get_paddr flags allow_huge fuel ((vaddr + size_of page_size) % 2 ^ 64)
          (size - size_of page_size) in
      if size == 0 then pure tt else (map e vaddr paddr page_size flags >> rest)

  unfoldable pub map_region :
      (vaddr : ℕ) (get_paddr : ℕ → ℕ) (size flags : ℕ) (allow_huge : Bool)
      → Cmd (Session S V B) (Unit {0})
  unfolding map_loop
  map_region vaddr get_paddr size flags allow_huge =
      if not (is_aligned addr size_4k vaddr) || not (is_aligned addr size_4k size)
      then throw not_aligned
      else map_loop get_paddr flags allow_huge (rounds size) vaddr size

  unfoldable pub unmap_loop : (fuel vaddr size : ℕ) → Cmd (Session S V B) (Unit {0})
  unfolding unmap
  unmap_loop zero vaddr size = λ _. out_of_fuel
  unmap_loop (suc fuel) vaddr size =
      let round = (do
        (_, _, page_size) ← unmap e vaddr
        assert (is_aligned addr page_size vaddr)
        assert (leb (size_of page_size) size)
        unmap_loop fuel ((vaddr + size_of page_size) % 2 ^ 64) (size - size_of page_size)) in
      if size == 0 then pure tt else round

  unfoldable pub unmap_region : (vaddr size : ℕ) → Cmd (Session S V B) (Unit {0})
  unfolding unmap_loop
  unmap_region vaddr size = unmap_loop (rounds size) vaddr size

  -- The `match` of one round of `protect_region`: the size of the page found, or of a 4K hole.
  abbrev pub protect_found : (vaddr flags : ℕ) → Slot × PageSize → Cmd (Session S V B) PageSize
  protect_found vaddr flags (p, page_size) = do
    entry ← load e p
    if pte.is_present entry
        then (do
          store_entry e p (pte.set_flags entry flags (is_huge_size page_size))
          push e vaddr
          pure page_size)
        else pure page_size

  abbrev pub protect_match :
      (vaddr flags : ℕ) → Run (Session S V B) (Slot × PageSize) → Run (Session S V B) PageSize
  protect_match vaddr flags (done (ok found) s) = protect_found vaddr flags found s
  protect_match vaddr flags (done (err not_mapped) s) = done (ok size_4k) s
  protect_match vaddr flags (done (err no_memory) s) = done (err no_memory) s
  protect_match vaddr flags (done (err not_aligned) s) = done (err not_aligned) s
  protect_match vaddr flags (done (err already_mapped) s) = done (err already_mapped) s
  protect_match vaddr flags (done (err mapped_to_huge_page) s) = done (err mapped_to_huge_page) s
  protect_match vaddr flags panic = panic
  protect_match vaddr flags out_of_fuel = out_of_fuel

  unfoldable pub protect_round : (vaddr flags : ℕ) → Cmd (Session S V B) PageSize
  unfolding get_entry_mut push
  protect_round vaddr flags s = protect_match vaddr flags (inner (λ t. get_entry_mut e t vaddr) s)

  unfoldable pub protect_loop : (flags fuel vaddr size : ℕ) → Cmd (Session S V B) (Unit {0})
  unfolding protect_round
  protect_loop flags zero vaddr size = λ _. out_of_fuel
  protect_loop flags (suc fuel) vaddr size =
      let round = (do
        page_size ← protect_round vaddr flags
        assert (is_aligned addr page_size vaddr)
        assert (leb (size_of page_size) size)
        protect_loop flags fuel ((vaddr + size_of page_size) % 2 ^ 64)
            (size - size_of page_size)) in
      if size == 0 then pure tt else round

  unfoldable pub protect_region : (vaddr size flags : ℕ) → Cmd (Session S V B) (Unit {0})
  unfolding protect_loop
  protect_region vaddr size flags = protect_loop flags (rounds size) vaddr size
