-- ===== src/Table32/Session.antt =====
-- Sessions on well-formed two-level tables, and what an operation changes for the addresses.
use page_table_multiarch.Common.{ℕ, ◌≡◌, ◌≢◌, refl, ◌∙◌, Option, true}
use page_table_multiarch.Paging.{PageSize, ok, Platform}
use page_table_multiarch.Paging.Run.{done, ◌>>◌}
use page_table_multiarch.Paging.Flusher.{asks, Pushed, pushed-Pushed}
use page_table_multiarch.Table32.Defs.{Memory}
use page_table_multiarch.Table32.Contract.{IsPlatform}
use page_table_multiarch.Table32.Answer.{answer}
use page_table_multiarch.Table32.Placed.{
  Owners, page, IsTable, IsPlace, IsLeaf, rewritten, mapped_by,
}
use page_table_multiarch.Table32.Written.{written_else, written_here, written-IsTable}
use page_table_multiarch.Table32.Cursor.{Session, with_flusher, store_entry, push}

abbrev pub root_of : {S V : Type 0} → Session S V → ℕ
root_of s = s.cursor.inner.root_paddr

module _ {S V B : Type 0} {e : Platform S V B} (a : IsPlatform e) where
  abbrev pub IsSession : Owners → Session S V → Type 0
  IsSession owner s = IsTable a (root_of s) owner s.memory

  -- the entry that maps an address in a session, and the size of its page
  abbrev pub answers : Session S V → ℕ → Option (ℕ × PageSize)
  answers s u = answer e s.memory.words (root_of s) u

  -- The page of `v` gets the answer `new`, is to be flushed, and nothing else changes for any
  -- address.
  pub record Changes (owner : Owners) (s s' : Session S V) (size : PageSize) (v : ℕ)
      (new : Option (ℕ × PageSize)) : Type 0 where
    pub session : IsSession owner s'
    pub same_table : s'.cursor.inner ≡ s.cursor.inner
    pub here : (u : ℕ) → page size u ≡ page size v → answers s' u ≡ new
    pub others : (u : ℕ) → page size u ≢ page size v → answers s' u ≡ answers s u
    pub requested : asks e.vec s'.cursor.flusher v ≡ true
    pub requested_old :
        (u : ℕ) → asks e.vec s.cursor.flusher u ≡ true → asks e.vec s'.cursor.flusher u ≡ true

  -- Nothing changes for any address.
  pub record Unchanged (owner : Owners) (s s' : Session S V) : Type 0 where
    pub session : IsSession owner s'
    pub same_cursor : s'.cursor ≡ s.cursor
    pub same : (u : ℕ) → answers s' u ≡ answers s u

  abbrev pub push_on : (s : Session S V) (v : ℕ) → Pushed e.vec s.cursor.flusher v
  push_on s v = pushed-Pushed e.vec a.bounded s.cursor.flusher v

  pub push_lem :
      (v : ℕ) (s : Session S V) → push e v s ≡ done (ok tt) (with_flusher s (push_on s v).after)
  unfolding push
  push_lem v s = rw ((push_on s v).ends, push)

  -- The session once a word is stored and its address pushed.
  abbrev pub finished : Session S V → (p word v : ℕ) → Session S V
  finished s p word v =
      let s' = record s { memory = rewritten s.memory p word } in
      with_flusher s' (push_on s' v).after

  pub store-push :
      (s : Session S V) (p word v : ℕ)
      → (store_entry e p word >> push e v) s ≡ done (ok tt) (finished s p word v)
  store-push s p word v = push_lem v (record s { memory = rewritten s.memory p word })

  -- A word stored in the place of a page, after the memory has become `w` without another answer.
  pub finished-Changes :
      {owner : Owners} (s : Session S V) (w : Memory S) {v p : ℕ} {size : PageSize} (word : ℕ)
      → IsTable a (root_of s) owner w
      → ((u : ℕ) → answer e w.words (root_of s) u ≡ answers s u)
      → IsPlace a (root_of s) w.words v size p
      → IsLeaf a (root_of s) size word
      → Changes owner s
          (finished (record s { memory = w }) p word v)
          size
          v
          (mapped_by a (root_of s) size word)
  finished-Changes s w {v} {p} {size} word t same at leaf =
      let s' = record s { memory = rewritten w p word } in
      record {
        session = written-IsTable a (root_of s) t word at leaf;
        same_table = refl;
        here = λ u in_page. written_here a (root_of s) t word u at leaf in_page;
        others = λ u apart. written_else a (root_of s) t word u at apart ∙ same u;
        requested = (push_on s' v).new;
        requested_old = (push_on s' v).old;
      }
