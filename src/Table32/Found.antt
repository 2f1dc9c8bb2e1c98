-- ===== src/Table32/Found.antt =====
-- The place in which the descent of an address ends, as `get_entry_mut` gives it, and what a write
-- there changes.
use page_table_multiarch.Common.{
  false, ℕ, ◌<◌, ◌≡◌, refl, sym, inl, inr, Bool-cases, Option, none, some, true,
}
use page_table_multiarch.Paging.{size_1m, PageSize, is_huge_size, Platform}
use page_table_multiarch.Paging.Run.{Run, done, Cmd, and_then}
use page_table_multiarch.Table32.Contract.{IsPlatform}
use page_table_multiarch.Table32.Answer.{top, found, or_not_mapped}
use page_table_multiarch.Table32.Placed.{Owners, IsPlace, section, small_page, IsLeaf, mapped_by}
use page_table_multiarch.Table32.Session.{root_of, IsSession, Changes, finished, finished-Changes}
use page_table_multiarch.Table32.Mapped.{IsSize, is_4k, is_1m}
use page_table_multiarch.Table32.Cursor.{Session, in_session}

module _ {S V B : Type 0} {e : Platform S V B} (a : IsPlatform e) where
  open e use {pte}

  -- Where the descent of an address ends.
  pub data Found (words : ℕ → ℕ) (root v : ℕ) : Option (ℕ × PageSize) → Type 0 where
    missing : pte.is_unused (top e words root v) ≡ true → Found words root v none
    place :
        {p : ℕ} {size : PageSize}
        → IsSize size
        → IsPlace a root words v size p
        → (size ≡ size_1m → pte.is_unused (words p) ≡ false)
        → Found words root v (some (p, size))

  pub found-Found : (words : ℕ → ℕ) (root v : ℕ) → Found words root v (found e words root v)
  unfolding found
  found-Found words root v = elim (Bool-cases (pte.is_unused (top e words root v))) [
    | inl unused ↦ rw unused (missing unused)
    | inr used ↦ elim (Bool-cases (pte.is_huge (top e words root v))) [
      | inl huge ↦ rw (used, huge) (place is_1m (section (inr huge)) (λ same. used))
      | inr link ↦
          rw (used, link)
            (place is_4k (small_page (record { in_use = used; no_section = link }))
              (λ same. absurd (cc same)))
    ]
  ]

  -- A command that starts from the place of an address.
  abbrev pub at_place :
      {A : Type 0}
      → (ℕ × PageSize → Cmd (Session S V) A)
      → (v : ℕ) → Session S V
      → Run (Session S V) A
  at_place k v s =
      and_then
        (in_session s.cursor
          (done (or_not_mapped e (found e s.memory.words (root_of s) v)) s.memory))
        k

  new_page-IsLeaf :
      {size : PageSize} (p f root : ℕ)
      → IsSize size
      → f < 64
      → a.accepts f ≡ true
      → IsLeaf a root size (pte.new_page p f (is_huge_size size))
  new_page-IsLeaf p f root is_4k small accepted = tt
  new_page-IsLeaf p f root is_1m small accepted = inr (a.lawful.is_huge-new_page p f small accepted)

  clear-IsLeaf :
      {size : PageSize} (word root : ℕ) → IsSize size → IsLeaf a root size (pte.clear word)
  clear-IsLeaf word root is_4k = tt
  clear-IsLeaf word root is_1m = inl (rw (a.lawful.clear_lem, a.lawful.is_unused_lem) refl)

  cleared : (word : ℕ) → pte.is_unused (pte.clear word) ≡ true
  cleared word = rw (a.lawful.clear_lem, a.lawful.is_unused_lem) refl

  -- A page gets a new entry, or loses its entry.
  module _ {owner : Owners} (s : Session S V) {v p : ℕ} {size : PageSize} (t : IsSession a owner s)
      (at : IsPlace a (root_of s) s.memory.words v size p) (kind : IsSize size) where
    pub written-Changes :
        (q f : ℕ)
        → f < 64
        → a.accepts f ≡ true
        → Changes a owner s
            (finished a s p (pte.new_page q f (is_huge_size size)) v)
            size
            v
            (some (pte.new_page q f (is_huge_size size), size))
    written-Changes q f small accepted = rw (sym (new_answer tt)) (
        finished-Changes a s s.memory (pte.new_page q f (is_huge_size size)) t (λ u. refl) at
          (new_page-IsLeaf q f (root_of s) kind small accepted))
      where
        new_answer :
            Unit {0}
            → mapped_by a (root_of s) size (pte.new_page q f (is_huge_size size))
              ≡ some (pte.new_page q f (is_huge_size size), size)
        new_answer u = rw (a.lawful.is_unused-new_page q f (is_huge_size size) small accepted) refl

    pub cleared-Changes :
        (word : ℕ) → Changes a owner s (finished a s p (pte.clear word) v) size v none
    cleared-Changes word = rw (sym (new_answer tt)) (
        finished-Changes a s s.memory (pte.clear word) t (λ u. refl) at
          (clear-IsLeaf word (root_of s) kind))
      where
        new_answer : Unit {0} → mapped_by a (root_of s) size (pte.clear word) ≡ none
        new_answer u = rw (cleared word) refl
