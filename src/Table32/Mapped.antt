-- ===== src/Table32/Mapped.antt =====
-- The outcomes of `map` on a two-level table, in terms of what the addresses are answered.
use page_table_multiarch.Common.{
  ℕ, ◌<◌, ◌≡◌, refl, sym, ◌∙◌, inl, inr, Bool-cases, Option-cases, none, some, true, false, not,
  if◌then◌else◌,
}
use page_table_multiarch.Paging.{
  ok, err, PageSize, size_4k, size_1m, size_of, is_huge_size, Platform, no_memory, already_mapped,
}
use page_table_multiarch.Paging.Run.{Run, done, Cmd, and_then, throw, ◌>>=◌, ◌>>◌}
use page_table_multiarch.Table32.Defs.{Memory, get_entry_mut_or_create}
use page_table_multiarch.Table32.Contract.{IsPlatform}
use page_table_multiarch.Table32.Answer.{first, top, answer}
use page_table_multiarch.Table32.Placed.{
  Owners, page, IsLink, IsTable, IsPlace, section, small_page, IsLeaf, mapped_by, answer-used,
  answer-unused,
}
use page_table_multiarch.Table32.Written.{shared}
use page_table_multiarch.Table32.Fresh.{extended, extended_same, extended-IsPlace, extended_unused}
use page_table_multiarch.Table32.Grown.{extended-IsTable, failed-IsTable}
use page_table_multiarch.Table32.Created.{
  create-section, create-no_frame, create-table, create-in_section, create-linked,
}
use page_table_multiarch.Table32.Session.{
  root_of, IsSession, answers, Changes, Unchanged, store-push, finished-Changes,
}
use page_table_multiarch.Table32.Cursor.{Session, in_session, load, store_entry, push, map}

-- The page sizes of two-level tables.
pub data IsSize : PageSize → Type 0 where
  is_4k : IsSize size_4k
  is_1m : IsSize size_1m

module _ {S V B : Type 0} {e : Platform S V B} (a : IsPlatform e) where
  -- the entry that `map` writes
  abbrev pub page_word : (target : ℕ) → PageSize → (flags : ℕ) → ℕ
  page_word target size flags =
      e.pte.new_page (e.addr.align_down target (size_of size)) flags (is_huge_size size)

  page_word-IsLeaf :
      {size : PageSize} (target f root : ℕ)
      → IsSize size
      → f < 64
      → a.accepts f ≡ true
      → IsLeaf a root size (page_word target size f)
  page_word-IsLeaf target f root is_4k small accepted = tt
  page_word-IsLeaf target f root is_1m small accepted =
      inr (a.lawful.is_huge-new_page (e.addr.align_down target (size_of size_1m)) f small accepted)

  -- the entry of an address in the root
  abbrev pub top_of : Session S V → ℕ → ℕ
  top_of s v = top e s.memory.words (root_of s) v

  -- A success maps a page that was not mapped. A failure changes nothing: the allocator has no frame
  -- for an L2 table, or the entry is in use, and so is a page of 4K then.
  pub data Mapped (owner : Owners) (s : Session S V) (size : PageSize) (v word : ℕ)
      : Run (Session S V) (Unit {0}) → Type 0 where
    mapped :
        {s' : Session S V} (owner' : Owners)
        → ((u : ℕ) → page size u ≡ page size v → answers a s u ≡ none)
        → Changes a owner' s s' size v (some (word, size))
        → Mapped owner s size v word (done (ok tt) s')
    no_frame :
        {s' : Session S V}
        → size ≡ size_4k
        → (e.handler.alloc_frame s.memory.os).0 ≡ none
        → answers a s v ≡ none
        → Unchanged a owner s s'
        → Mapped owner s size v word (done (err no_memory) s')
    in_use :
        {s' : Session S V}
        → e.pte.is_unused (top_of s v) ≡ false
        → (size ≡ size_4k → (x : ℕ × PageSize) × (answers a s v ≡ some x))
        → Unchanged a owner s s'
        → Mapped owner s size v word (done (err already_mapped) s')

  -- what `map` does with the entry that it has got
  abbrev pub map_at : (v word p : ℕ) → Cmd (Session S V) (Unit {0})
  map_at v word p = do
    entry ← load e p
    if not (e.pte.is_unused entry) then throw already_mapped else do store_entry e p word; push e v

  -- The place of a page, in a memory `w` with the same answers.
  module _ {owner owner' : Owners} {s : Session S V} {size : PageSize} {v p : ℕ} (word : ℕ)
      (w : Memory S) (t : IsTable a (root_of s) owner' w)
      (same : (u : ℕ) → answer e w.words (root_of s) u ≡ answers a s u)
      (at : IsPlace a (root_of s) w.words v size p) (leaf : IsLeaf a (root_of s) size word)
      (present : e.pte.is_unused word ≡ false) where
    map_unused :
        e.pte.is_unused (w.words p) ≡ true
        → Mapped owner s size v word (map_at v word p (record s { memory = w }))
    map_unused unused =
        rw (unused, store-push a (record s { memory = w }) p word v)
          (mapped owner'
            (λ u in_page.
              sym (same u) ∙ answer-unused a (root_of s) (shared a (root_of s) u at in_page) unused)
            (rw (sym (new_answer tt)) (finished-Changes a s w word t same at leaf)))
      where
        new_answer : Unit {0} → mapped_by a (root_of s) size word ≡ some (word, size)
        new_answer u = rw present refl

  unchanged : {owner : Owners} (s : Session S V) → IsSession a owner s → Unchanged a owner s s
  unchanged s t = record { session = t; same_cursor = refl; same = λ u. refl }

  map_lem :
      (s : Session S V) (v target : ℕ) (size : PageSize) (f : ℕ)
      → map e v target size f s
        ≡ and_then
            (in_session s.cursor (get_entry_mut_or_create e s.cursor.inner v size s.memory))
            (map_at v (page_word target size f))
  unfolding map
  map_lem s v target size f = refl

  page_word-used :
      (target : ℕ) (size : PageSize) (f : ℕ)
      → f < 64
      → a.accepts f ≡ true
      → e.pte.is_unused (page_word target size f) ≡ false
  page_word-used target size f small accepted =
      a.lawful.is_unused-new_page (e.addr.align_down target (size_of size)) f (is_huge_size size)
        small accepted

  module _ {owner : Owners} (s : Session S V) (v target f : ℕ) (small : f < 64)
      (accepted : a.accepts f ≡ true) (t : IsSession a owner s) where
    -- The outcome on what `get_entry_mut_or_create` gives.
    abbrev Outcome : PageSize → Run (Memory S) ℕ → Type 0
    Outcome size r =
        Mapped owner s size v (page_word target size f)
          (and_then (in_session s.cursor r) (map_at v (page_word target size f)))

    -- The place of a page is in the table as it stands.
    map_in_place :
        {size : PageSize} {p : ℕ}
        → IsSize size
        → IsPlace a (root_of s) s.memory.words v size p
        → (e.pte.is_unused (s.memory.words p) ≡ false → e.pte.is_unused (top_of s v) ≡ false)
        → Outcome size (done (ok p) s.memory)
    map_in_place {size} {p} kind at above = elim (Bool-cases (e.pte.is_unused (s.memory.words p))) [
      | inl unused ↦
          map_unused (page_word target size f) s.memory t (λ u. refl) at
            (page_word-IsLeaf target f (root_of s) kind small accepted)
            (page_word-used target size f small accepted) unused
      | inr used ↦
          rw used
            (in_use (above used) (λ same. (_, answer-used a (root_of s) at used)) (unchanged s t))
    ]

    map_section : Outcome size_1m (get_entry_mut_or_create e s.cursor.inner v size_1m s.memory)
    map_section =
        rw (create-section a s.cursor.inner v s.memory)
          (elim (Bool-cases (e.pte.is_unused (top_of s v))) [
            | inl unused ↦ map_in_place is_1m (section (inl unused)) (λ used. used)
            | inr used ↦ rw used (in_use used (λ same. absurd (differ same)) (unchanged s t))
          ])
      where
        differ : size_1m ≡ size_4k → ⊥
        differ same = cc

    -- An L2 table is missing.
    map_missing :
        e.pte.is_unused (top_of s v) ≡ true
        → Outcome size_4k (get_entry_mut_or_create e s.cursor.inner v size_4k s.memory)
    map_missing unused = elim (Option-cases (e.handler.alloc_frame s.memory.os).0) [
      | inl failed ↦ rw (create-no_frame a s.cursor.inner v s.memory unused failed) (
          no_frame refl failed (answer-unused a (root_of s) (section (inl unused)) unused) (record {
            session = failed-IsTable a (root_of s) t failed;
            same_cursor = refl;
            same = λ u. refl;
          }))
      | inr (q, got) ↦ rw (create-table a s.cursor.inner v s.memory q unused got) (
          map_unused (page_word target size_4k f) (extended a (root_of s) s.memory q (first v))
            (extended-IsTable a (root_of s) t q v got unused)
            (extended_same a (root_of s) t q v got unused)
            (extended-IsPlace a (root_of s) t q v got unused) tt
            (page_word-used target size_4k f small accepted)
            (extended_unused a (root_of s) t q v got unused))
    ]

    map_linked :
        IsLink a (root_of s) (top_of s v)
        → Outcome size_4k (get_entry_mut_or_create e s.cursor.inner v size_4k s.memory)
    map_linked link =
        rw (create-linked a s.cursor.inner v s.memory link)
          (map_in_place is_4k (small_page link) (λ used. link.in_use))

    map_in_section :
        e.pte.is_unused (top_of s v) ≡ false
        → e.pte.is_huge (top_of s v) ≡ true
        → Outcome size_4k (get_entry_mut_or_create e s.cursor.inner v size_4k s.memory)
    map_in_section used huge = rw (create-in_section a s.cursor.inner v s.memory used huge) (
        in_use used (λ same. (_, answer-used a (root_of s) (section (inr huge)) used))
          (unchanged s t))

  -- `map` on a well-formed table, with flags that make a page, of 4K or 1M. Either it succeeds: no
  -- address of the page was mapped, all of them now have the entry written, every other address has
  -- the entry it had, and the address is to be flushed. Or it fails, with `NoMemory` where the
  -- allocator has no frame for an L2 table that is missing, with `AlreadyMapped` where the entry is
  -- in use (for a page of 4K: where the address is mapped), and then no address has another entry
  -- and the cursor is the same. In all cases the table is well formed on the same root. There is no
  -- panic.
  pub map-Mapped32 :
      {owner : Owners} {size : PageSize} (s : Session S V) (v target f : ℕ)
      → IsSize size
      → f < 64
      → a.accepts f ≡ true
      → IsSession a owner s
      → Mapped owner s size v (page_word target size f) (map e v target size f s)
  map-Mapped32 s v target f is_1m small accepted t =
      rw (map_lem s v target size_1m f) (map_section s v target f small accepted t)
  map-Mapped32 s v target f is_4k small accepted t =
      rw (map_lem s v target size_4k f) (elim (Bool-cases (e.pte.is_unused (top_of s v))) [
        | inl unused ↦ map_missing s v target f small accepted t unused
        | inr used ↦ elim (Bool-cases (e.pte.is_huge (top_of s v))) [
          | inl huge ↦ map_in_section s v target f small accepted t used huge
          | inr small_table ↦
              map_linked s v target f small accepted t
                (record { in_use = used; no_section = small_table })
        ]
      ])
