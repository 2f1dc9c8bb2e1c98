-- ===== src/Table32/Unmapped.antt =====
-- The outcomes of `unmap` on a two-level table.
use page_table_multiarch.Common.{
  ℕ, ◌≡◌, refl, inl, inr, Bool-cases, Option, none, some, if◌then◌else◌,
}
use page_table_multiarch.Paging.{ok, err, PageSize, Platform, not_mapped}
use page_table_multiarch.Paging.Run.{Run, done, Cmd, and_then, pure, throw, ◌>>=◌, ◌>>◌}
use page_table_multiarch.Table32.Contract.{IsPlatform}
use page_table_multiarch.Table32.Answer.{get_entry_mut_lem, or_not_mapped}
use page_table_multiarch.Table32.Placed.{Owners, section, answer-used, answer-unused}
use page_table_multiarch.Table32.Session.{root_of, IsSession, answers, Changes, push_lem}
use page_table_multiarch.Table32.Found.{
  Found, missing, place, found-Found, at_place, cleared-Changes,
}
use page_table_multiarch.Table32.Cursor.{Session, in_session, load, store_entry, push, unmap}

module _ {S V B : Type 0} {e : Platform S V B} (a : IsPlatform e) where
  open e use {pte}

  -- The outcomes of `unmap`.
  pub data Unmapped (owner : Owners) (s : Session S V) (v : ℕ)
      : Run (Session S V) (ℕ × ℕ × PageSize) → Type 0 where
    unmapped :
        {s' : Session S V} {word : ℕ} {size : PageSize}
        → answers a s v ≡ some (word, size)
        → Changes a owner s s' size v none
        → Unmapped owner s v (done (ok (pte.paddr word, pte.flags word, size)) s')
    nothing : answers a s v ≡ none → Unmapped owner s v (done (err not_mapped) s)

  -- what `unmap` does at the place that it has got
  abbrev unmap_at : (v : ℕ) → ℕ × PageSize → Cmd (Session S V) (ℕ × ℕ × PageSize)
  unmap_at v (p, size) = do
    entry ← load e p
    if pte.is_unused entry then throw not_mapped else do
      store_entry e p (pte.clear entry)
      push e v
      pure (pte.paddr entry, pte.flags entry, size)

  unmap_lem : (s : Session S V) (v : ℕ) → unmap e v s ≡ at_place a (unmap_at v) v s
  unfolding unmap
  unmap_lem s v = rw (get_entry_mut_lem e s.cursor.inner v s.memory) refl

  -- `unmap` on a well-formed table succeeds just where the address is mapped. It gives the frame,
  -- the flags and the size of the page, no address of which is mapped any more, all other addresses
  -- keep their entries, and the address is to be flushed. Elsewhere it fails with `NotMapped` and
  -- changes nothing.
  pub unmap-Unmapped32 :
      {owner : Owners} (s : Session S V) (v : ℕ)
      → IsSession a owner s
      → Unmapped owner s v (unmap e v s)
  unmap-Unmapped32 {owner} s v t =
      rw (unmap_lem s v) (from (found-Found a s.memory.words (root_of s) v))
    where
      from :
          {o : Option (ℕ × PageSize)}
          → Found a s.memory.words (root_of s) v o
          → Unmapped owner s v
              (and_then (in_session s.cursor (done (or_not_mapped e o) s.memory)) (unmap_at v))
      from (missing unused) = nothing (answer-unused a (root_of s) (section (inl unused)) unused)
      from (place {p} {size} kind at section_used) =
          elim (Bool-cases (pte.is_unused (s.memory.words p))) [
            | inl unused ↦ rw unused (nothing (answer-unused a (root_of s) at unused))
            | inr used ↦
                rw (used, push_lem a v)
                  (unmapped (answer-used a (root_of s) at used)
                    (cleared-Changes a s t at kind (s.memory.words p)))
          ]
