-- ===== src/Table64/Unmapped.antt =====
-- The outcomes of `unmap`, in terms of what the addresses are answered.
use page_table_multiarch.Common.{
  ℕ, ◌≤◌, ◌≡◌, refl, sym, ap, ◌∙◌, inl, inr, false, not, Bool-cases, if◌then◌else◌, ◌==◌, arith,
}
use page_table_multiarch.Paging.{PagingError, ok, err, PageSize, Platform, World, not_mapped}
use page_table_multiarch.Paging.Run.{Run, done, Cmd, and_then, throw, pure, ◌>>=◌, ◌>>◌}
use page_table_multiarch.Paging.Contract.{IsPlatform}
use page_table_multiarch.Table64.Defs.{Slot, next_table}
use page_table_multiarch.Table64.Height.{size_at}
use page_table_multiarch.Table64.Answer.{present}
use page_table_multiarch.Table64.Placed.{Placement}
use page_table_multiarch.Table64.Link.{next_table-zero}
use page_table_multiarch.Table64.Flush.{push-IsPushed}
use page_table_multiarch.Table64.Reached.{IsPage, IsEnd, answer-leaf}
use page_table_multiarch.Table64.Written.{
  IsEntry, answer-entry, shared, rewritten-IsTable, rewritten_others, cleared_page,
}
use page_table_multiarch.Table64.Found.{Found, found, not_found, get_entry_mut-Found}
use page_table_multiarch.Table64.Mapped.{
  root_of, IsSession, answers, page_in, Changes, Unchanged, stored, finished-Changes,
}
use page_table_multiarch.Table64.Cursor.{Session, in_session, load, store_entry, push, unmap}

module _ {S V B : Type 0} {e : Platform S V B} (a : IsPlatform e) where
  module _ {place : Placement} (s : Session S V B) (t : IsSession a place s) (h v : ℕ) (p : Slot)
      (at : IsEntry a (root_of a s) place s.world h v p)
      (kind : IsPage a (root_of a s) h (s.world.mem p.frame p.index)) where
    -- the answer is the entry's, for each address of the page
    pub entry_answers :
        (u : ℕ)
        → page_in a h u ≡ page_in a h v
        → answers a s u ≡ present e (s.world.mem p.frame p.index) (size_at h)
    entry_answers u same =
        answer-entry a (root_of a s) t (shared a (root_of a s) t at u same)
        ∙ answer-leaf a (root_of a s) h p.frame u _ s.world.mem kind
            (ap (s.world.mem p.frame) (sym (shared a (root_of a s) t at u same).at_index))

    -- Clearing an entry that is not present changes no answer.
    cleared-Unchanged :
        e.pte.is_present (s.world.mem p.frame p.index) ≡ false
        → Unchanged a place s (stored a s p (e.pte.clear (s.world.mem p.frame p.index)))
    cleared-Unchanged absent = record {
      session = rewritten-IsTable a (root_of a s) t at _ cleared-IsEnd;
      same_cursor = refl;
      same = λ u. elim (Bool-cases (page_in a h u == page_in a h v)) [
        | inl same ↦
            cleared_page a (root_of a s) t at _ u (a.lawful.clear_lem _) (ground (arith, same))
            ∙ sym (entry_answers u (ground (arith, same)) ∙ rw absent)
        | inr apart ↦ rewritten_others a (root_of a s) t at _ u (ground (arith, apart))
      ];
    }
      where
        cleared-IsEnd : IsEnd a (root_of a s) h (e.pte.clear (s.world.mem p.frame p.index))
        cleared-IsEnd = inr (λ q link. cc (
          ap (next_table e) (a.lawful.clear_lem (s.world.mem p.frame p.index)),
          link,
          next_table-zero e a.lawful,
        ))

  -- A success gives the entry that the address had, and then the page is not mapped; a failure is
  -- the answer that the address had, and changes no answer.
  pub data Unmapped (place : Placement) (s : Session S V B) (v : ℕ)
      : Run (Session S V B) (ℕ × ℕ × PageSize) → Type 0 where
    unmapped :
        {s' : Session S V B} (h word : ℕ)
        → h ≤ 2
        → ((u : ℕ) → page_in a h u ≡ page_in a h v → answers a s u ≡ ok (word, size_at h))
        → Changes a place s s' h v (err not_mapped)
        → Unmapped place s v (done (ok (e.pte.paddr word, e.pte.flags word, size_at h)) s')
    vacant :
        {r : PagingError} {s' : Session S V B}
        → answers a s v ≡ err r
        → Unchanged a place s s'
        → Unmapped place s v (done (err r) s')

  -- what `unmap` does with the entry that it has found
  abbrev unmap_at : ℕ → Slot × PageSize → Cmd (Session S V B) (ℕ × ℕ × PageSize)
  unmap_at v (p, size) = do
    entry ← load e p
    if not (e.pte.is_present entry)
        then (do store_entry e p (e.pte.clear entry); throw not_mapped)
        else do
          let paddr = e.pte.paddr entry
          let flags = e.pte.flags entry
          store_entry e p (e.pte.clear entry)
          push e v
          pure (paddr, flags, size)

  unmap_at-Unmapped :
      {place : Placement} {s : Session S V B} (t : IsSession a place s) (h v : ℕ) (p : Slot)
      → h ≤ 2
      → IsEntry a (root_of a s) place s.world h v p
      → IsPage a (root_of a s) h (s.world.mem p.frame p.index)
      → Unmapped place s v (unmap_at v (p, size_at h) s)
  unmap_at-Unmapped {s} t h v p low at kind =
      elim (Bool-cases (e.pte.is_present (s.world.mem p.frame p.index))) [
        | inr absent ↦ rw absent (
            vacant {r = not_mapped} (entry_answers s t h v p at kind v refl ∙ rw absent)
              (cleared-Unchanged s t h v p at kind absent))
        | inl here ↦
            rw
              (
                here,
                (push-IsPushed e a.bounded v
                    (stored a s p (e.pte.clear (s.world.mem p.frame p.index)))).ends,
              )
              (unmapped h (s.world.mem p.frame p.index) low
                (λ u same. entry_answers s t h v p at kind u same ∙ rw here)
                (finished-Changes a t h v p at _ _
                  (inr (λ q link. cc (
                    ap (next_table e) (a.lawful.clear_lem (s.world.mem p.frame p.index)),
                    link,
                    next_table-zero e a.lawful,
                  )))
                  λ u same. cleared_page a (root_of a s) t at _ u (a.lawful.clear_lem _) same))
      ]

  -- `unmap` on a well-formed table: it succeeds just where the address is mapped. Then it gives the
  -- frame, the flags and the size of the page's entry; afterwards no address of the page is mapped, all
  -- others have the answer they had, and the address is to be flushed. Where it fails, the error is
  -- what the address was answered, and no answer changes, although an entry that is not present is
  -- cleared. The table stays well formed on the same root.
  pub unmap-Unmapped :
      {place : Placement} (s : Session S V B) (v : ℕ)
      → IsSession a place s
      → Unmapped place s v (unmap e v s)
  unfolding unmap
  unmap-Unmapped {place} s v t =
      from (get_entry_mut-Found a (root_of a s) s.cursor.inner v place s.world refl t)
    where
      from :
          {r : Run (World S) (Slot × PageSize)}
          → Found a (root_of a s) place s.world v r
          → Unmapped place s v (and_then (in_session s.cursor r) (unmap_at v))
      from (found {s = p} h low at kind) = unmap_at-Unmapped t h v p low at kind
      from (not_found none_there) =
          vacant none_there (record { session = t; same_cursor = refl; same = λ u. refl })
