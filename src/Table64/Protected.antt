-- ===== src/Table64/Protected.antt =====
-- The outcomes of `protect`, in terms of what the addresses are answered.
use page_table_multiarch.Common.{
  ℕ, zero, suc, ◌≤◌, ◌<◌, ◌≡◌, refl, ◌∙◌, inl, inr, true, not, Bool-cases, if◌then◌else◌, arith,
}
use page_table_multiarch.Paging.{
  PagingError, ok, err, PageSize, is_huge_size, Platform, World, not_mapped,
}
use page_table_multiarch.Paging.Run.{Run, done, Cmd, and_then, throw, pure, ◌>>=◌, ◌>>◌}
use page_table_multiarch.Paging.Contract.{IsPlatform}
use page_table_multiarch.Table64.Defs.{Slot}
use page_table_multiarch.Table64.Height.{size_at}
use page_table_multiarch.Table64.Placed.{Placement}
use page_table_multiarch.Table64.Flush.{push-IsPushed}
use page_table_multiarch.Table64.Reached.{IsPage}
use page_table_multiarch.Table64.Written.{IsEntry, rewritten-page}
use page_table_multiarch.Table64.Found.{Found, found, not_found, get_entry_mut-Found}
use page_table_multiarch.Table64.Mapped.{
  root_of, IsSession, answers, page_in, Changes, stored, finished, finished-Changes, IsPage-IsEnd,
}
use page_table_multiarch.Table64.Cursor.{Session, in_session, load, store_entry, push, protect}
use page_table_multiarch.Table64.Unmapped.{entry_answers}

module _ {S V B : Type 0} {e : Platform S V B} (a : IsPlatform e) where
  -- A success sets the flags of the page's entry; a failure is the answer that the address had, and
  -- changes nothing.
  pub data Protected (place : Placement) (s : Session S V B) (v f : ℕ)
      : Run (Session S V B) PageSize → Type 0 where
    protected :
        {s' : Session S V B} (h word : ℕ)
        → h ≤ 2
        → ((u : ℕ) → page_in a h u ≡ page_in a h v → answers a s u ≡ ok (word, size_at h))
        → Changes a place s s' h v
            (ok (e.pte.set_flags word f (is_huge_size (size_at h)), size_at h))
        → Protected place s v f (done (ok (size_at h)) s')
    not_protected :
        {r : PagingError} → answers a s v ≡ err r → Protected place s v f (done (err r) s)

  -- what `protect` and `remap` do with the entry that they have found
  abbrev pub protect_at : (v f : ℕ) → Slot × PageSize → Cmd (Session S V B) PageSize
  protect_at v f (p, size) = do
    entry ← load e p
    if not (e.pte.is_present entry)
        then throw not_mapped
        else do store_entry e p (e.pte.set_flags entry f (is_huge_size size)); push e v; pure size

  set_flags-IsPage :
      (root h word f : ℕ)
      → h ≤ 2
      → f < 64
      → a.accepts f ≡ true
      → IsPage a root h (e.pte.set_flags word f (is_huge_size (size_at h)))
  set_flags-IsPage root zero word f low small accepted = inl refl
  set_flags-IsPage root (suc zero) word f low small accepted =
      inr (a.lawful.is_huge-set_flags word f small accepted)
  set_flags-IsPage root (suc (suc zero)) word f low small accepted =
      inr (a.lawful.is_huge-set_flags word f small accepted)
  set_flags-IsPage root (suc (suc (suc h))) word f low small accepted = absurd (omega arith)

  module _ {place : Placement} (s : Session S V B) (t : IsSession a place s) (h v f : ℕ) (p : Slot)
      (at : IsEntry a (root_of a s) place s.world h v p) (low : h ≤ 2) (small : f < 64)
      (accepted : a.accepts f ≡ true) where
    flagged :
        (word u : ℕ)
        → page_in a h u ≡ page_in a h v
        → answers a (stored a s p (e.pte.set_flags word f (is_huge_size (size_at h)))) u
          ≡ ok (e.pte.set_flags word f (is_huge_size (size_at h)), size_at h)
    flagged word u same =
        rewritten-page a (root_of a s) t at _ u
          (set_flags-IsPage (root_of a s) h word f low small accepted) same
        ∙ rw (a.lawful.is_present-set_flags word f (is_huge_size (size_at h)) small accepted)

    pub flagged-Changes :
        (word : ℕ)
        → Changes a place s
            (finished a s p (e.pte.set_flags word f (is_huge_size (size_at h))) v)
            h
            v
            (ok (e.pte.set_flags word f (is_huge_size (size_at h)), size_at h))
    flagged-Changes word =
        finished-Changes a t h v p at _ _
          (IsPage-IsEnd a (root_of a s) h _
            (set_flags-IsPage (root_of a s) h word f low small accepted))
          (flagged word)

    protect_at-Protected :
        IsPage a (root_of a s) h (s.world.mem p.frame p.index)
        → Protected place s v f (protect_at v f (p, size_at h) s)
    protect_at-Protected kind = elim (Bool-cases (e.pte.is_present (s.world.mem p.frame p.index))) [
      | inr absent ↦
          rw absent
            (not_protected {r = not_mapped} (entry_answers a s t h v p at kind v refl ∙ rw absent))
      | inl here ↦
          rw
            (
              here,
              (push-IsPushed e a.bounded v (
                  stored a s p (
                    e.pte.set_flags (s.world.mem p.frame p.index) f
                      (is_huge_size (size_at h))))).ends,
            )
            (protected h (s.world.mem p.frame p.index) low
              (λ u same. entry_answers a s t h v p at kind u same ∙ rw here)
              (flagged-Changes (s.world.mem p.frame p.index)))
    ]

  -- `protect` on a well-formed table, with flags that make a present page: it succeeds just where the
  -- address is mapped. Then the page's entry is the old one with the new flags, all other addresses
  -- have the answer they had, and the address is to be flushed. Where it fails, the error is what the
  -- address was answered, and nothing changes.
  pub protect-Protected :
      {place : Placement} (s : Session S V B) (v f : ℕ)
      → f < 64
      → a.accepts f ≡ true
      → IsSession a place s
      → Protected place s v f (protect e v f s)
  unfolding protect
  protect-Protected {place} s v f small accepted t =
      from (get_entry_mut-Found a (root_of a s) s.cursor.inner v place s.world refl t)
    where
      from :
          {r : Run (World S) (Slot × PageSize)}
          → Found a (root_of a s) place s.world v r
          → Protected place s v f (and_then (in_session s.cursor r) (protect_at v f))
      from (found {s = p} h low at kind) =
          protect_at-Protected s t h v f p at low small accepted kind
      from (not_found none_there) = not_protected none_there
