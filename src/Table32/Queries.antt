-- ===== src/Table32/Queries.antt =====
-- `map`, `query` and `unmap` on two-level tables, one after the other.
use page_table_multiarch.Common.{
  ℕ, ◌%◌, ◌<◌, ◌≡◌, ◌≢◌, refl, sym, ap, ◌∙◌, inl, inr, some, none, true, false, ◌==◌, ==_iff,
  Bool-cases, arith,
}
use mathlib.Core.Path.{subst}
use page_table_multiarch.Paging.{ok, err, PageSize, size_of, is_huge_size, Platform, already_mapped}
use page_table_multiarch.Paging.Run.{Run, done, state-same}
use page_table_multiarch.Table32.Defs.{query}
use page_table_multiarch.Table32.Contract.{IsPlatform}
use page_table_multiarch.Table32.Answer.{translated, query_lem32}
use page_table_multiarch.Table32.Placed.{Owners, page}
use page_table_multiarch.Table32.Session.{IsSession, answers, Changes, Unchanged}
use page_table_multiarch.Table32.Mapped.{
  IsSize, page_word, Mapped, mapped, no_frame, in_use, map-Mapped32,
}
use page_table_multiarch.Table32.Unmapped.{Unmapped, unmapped, nothing, unmap-Unmapped32}
use page_table_multiarch.Table32.Cursor.{Session, map, unmap}

module _ {S V B : Type 0} {e : Platform S V B} (a : IsPlatform e) where
  open e use {pte, addr}

  -- the frame of the page that `map` makes
  abbrev pub frame_for : (target : ℕ) → PageSize → ℕ
  frame_for target size = addr.align_down target (size_of size)

  -- What a successful `map` has done.
  record Success (s s' : Session S V) (size : PageSize) (v word : ℕ) : Type 0 where
    owner' : Owners
    free : (u : ℕ) → page size u ≡ page size v → answers a s u ≡ none
    changes : Changes a owner' s s' size v (some (word, size))

  success :
      {s s' : Session S V} {size : PageSize} {v word : ℕ} {owner : Owners}
      {r : Run (Session S V) (Unit {0})}
      → Mapped a owner s size v word r
      → r ≡ done (ok tt) s'
      → Success s s' size v word
  success {s} {s'} {size} {v} {word} (mapped owner' free changes) same =
      subst (λ x. Success s x size v word) (state-same same)
        (record { owner' = owner'; free = free; changes = changes })
  success (no_frame small failed free u) same = absurd cc
  success (in_use used answered u) same = absurd cc

  -- the error of a `map` that fails
  pub data Refusal (owner : Owners) (s : Session S V) : Run (Session S V) (Unit {0}) → Type 0 where
    refusal :
        {s' : Session S V} → Unchanged a owner s s' → Refusal owner s (done (err already_mapped) s')

  -- `map` of an address that is mapped, by a page of either size, fails with `AlreadyMapped`,
  -- whatever the size asked for and the state of the allocator, and changes no address.
  pub map-Refusal :
      {owner : Owners} {size : PageSize} (s : Session S V) (v target f : ℕ) (x : ℕ × PageSize)
      → IsSize size
      → f < 64
      → a.accepts f ≡ true
      → IsSession a owner s
      → answers a s v ≡ some x
      → Refusal owner s (map e v target size f s)
  map-Refusal {owner} {size} s v target f x kind small accepted t here =
      from (map-Mapped32 a s v target f kind small accepted t)
    where
      from :
          {word : ℕ} {r : Run (Session S V) (Unit {0})}
          → Mapped a owner s size v word r
          → Refusal owner s r
      from (mapped owner' free changes) = absurd (cc (here, free v refl))
      from (no_frame small failed free u) = absurd (cc (here, free))
      from (in_use used answered u) = refusal u

  -- `unmap` after `map`: it ends well, gives the entry that `map` made, and all addresses have the
  -- entries that they had before the `map`.
  pub record Undone (s s' : Session S V) (word : ℕ) (size : PageSize) (u : ℕ) : Type 0 where
    pub after : Session S V
    pub ends : unmap e u s' ≡ done (ok (pte.paddr word, pte.flags word, size)) after
    pub same : (x : ℕ) → answers a after x ≡ answers a s x

  module _ {owner : Owners} (s s' : Session S V) (v target : ℕ) (size : PageSize) (f : ℕ)
      (kind : IsSize size) (small : f < 64) (accepted : a.accepts f ≡ true)
      (t : IsSession a owner s) (ends : map e v target size f s ≡ done (ok tt) s') where
    outcome : Success s s' size v (page_word a target size f)
    outcome = success (map-Mapped32 a s v target f kind small accepted t) ends

    -- `query` after a `map` that succeeded, for a page whose frame the entry format keeps: every
    -- address of the page is translated to the target, aligned down to the page size, plus the offset
    -- of the address, with the size of the page. The flags are those that the format reads of the
    -- entry, and the flags asked for, as the format sees them, where it shows flags of such pages.
    pub map-query32 :
        a.exact (frame_for target size) f (is_huge_size size) ≡ true
        → (u : ℕ) → page size u ≡ page size v
        → (flags : ℕ) × (query e s'.cursor.inner u s'.memory
            ≡ done
                (ok (addr.add (frame_for target size) (u % size_of size), flags, size))
                s'.memory)
          × (a.shown (is_huge_size size) ≡ true → flags ≡ a.seen f)
    map-query32 fits u in_page = (
      pte.flags (page_word a target size f),
      query_lem32 e s'.cursor.inner u s'.memory
          ∙ ap (λ o. done (translated e u o) s'.memory) (outcome.changes.here u in_page)
          ∙ rw
              (a.lawful.paddr-new_page (frame_for target size) f (is_huge_size size) small accepted
                fits)
              refl,
      λ shows.
          a.lawful.flags-new_page (frame_for target size) f (is_huge_size size) small accepted
            shows,
    )

    restored :
        {s2 : Session S V} (u : ℕ)
        → page size u ≡ page size v
        → Changes a outcome.owner' s' s2 size u none
        → (x : ℕ) → answers a s2 x ≡ answers a s x
    restored u in_page c x = elim (Bool-cases (page size x == page size v)) [
      | inl inside ↦
          let here = (==_iff (page size x) (page size v)).0 inside in
          c.here x (here ∙ sym in_page) ∙ sym (outcome.free x here)
      | inr outside ↦
          c.others x (λ same. apart outside (same ∙ in_page))
          ∙ outcome.changes.others x (apart outside)
    ]
      where
        apart : (page size x == page size v) ≡ false → page size x ≢ page size v
        apart outside same = ground arith

    undone :
        {s2 : Session S V} {word : ℕ} {z : PageSize} (u : ℕ)
        → page size u ≡ page size v
        → word ≡ page_word a target size f
        → z ≡ size
        → unmap e u s' ≡ done (ok (pte.paddr word, pte.flags word, z)) s2
        → Changes a outcome.owner' s' s2 z u none
        → Undone s s' (page_word a target size f) size u
    undone {s2} {word} {z} u in_page same_word same_size eq c = record {
      after = s2;
      ends =
          eq
          ∙ ap (λ w. done (ok (pte.paddr w, pte.flags w, z)) s2) same_word
          ∙ ap
              (λ z. let w = page_word a target size f in done (ok (pte.paddr w, pte.flags w, z)) s2)
              same_size;
      same = restored u in_page (subst (λ z. Changes a outcome.owner' s' s2 z u none) same_size c);
    }

    -- `unmap` of any address of a page that `map` has mapped succeeds, gives the frame, the flags and
    -- the size that the new entry has, and restores the entries of all addresses.
    pub unmap-map32 :
        (u : ℕ) → page size u ≡ page size v → Undone s s' (page_word a target size f) size u
    unmap-map32 u in_page = from (unmap-Unmapped32 a s' u outcome.changes.session) refl
      where
        word_of : {x y : ℕ × PageSize} → some x ≡ some y → x.0 ≡ y.0
        word_of same = cc

        size_of_page : {x y : ℕ × PageSize} → some x ≡ some y → x.1 ≡ y.1
        size_of_page same = cc

        no_page : {x : ℕ × PageSize} → none ≡ some x → ⊥
        no_page same = cc

        from :
            {r : Run (Session S V) (ℕ × ℕ × PageSize)}
            → Unmapped a outcome.owner' s' u r
            → unmap e u s' ≡ r
            → Undone s s' (page_word a target size f) size u
        from (unmapped {s' = s2} {word} {size = z} answered c) eq =
            let same = sym answered ∙ outcome.changes.here u in_page in
            undone u in_page (word_of same) (size_of_page same) eq c
        from (nothing gone) eq = absurd (no_page (sym gone ∙ outcome.changes.here u in_page))
