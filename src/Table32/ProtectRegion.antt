-- ===== src/Table32/ProtectRegion.antt =====
-- `protect_region` on two-level tables: the pages of a region get new flags, holes stay.
use mathlib.Core.Path.{subst}
use page_table_multiarch.Common.{
  ℕ, zero, suc, ◌+◌, ◌-◌, ◌/◌, ◌%◌, ◌^◌, ◌≤◌, ◌<◌, ◌≡◌, refl, sym, ◌∙◌, inl, inr, true, false,
  Option, some, none, ==_ne, Bool-cases, arith,
}
use page_table_multiarch.Paging.{ok, PageSize, size_4k, size_1m, size_of, is_huge_size, Platform}
use page_table_multiarch.Paging.Run.{Run, done}
use page_table_multiarch.Table32.Contract.{IsPlatform}
use page_table_multiarch.Table32.Answer.{or_not_mapped, get_entry_mut_lem}
use page_table_multiarch.Table32.Placed.{Owners, section, answer-used, answer-unused}
use page_table_multiarch.Table32.Found.{Found, missing, place, found-Found, written-Changes}
use page_table_multiarch.Table32.Session.{root_of, IsSession, answers, Changes, push_lem}
use page_table_multiarch.Table32.Mapped.{IsSize, is_4k, is_1m}
use page_table_multiarch.Table32.Choose.{next_room, page_room}
use page_table_multiarch.Table32.Tiled.{
  Tiles, tiles_end, tiles_page, tiles_hole, Tiles-agree, size_of-le,
}
use page_table_multiarch.Table32.Looped.{
  Entry, Rewritten, rewritten_none, rewritten_rest, rest_same, page_round, hole_round, asserted,
}
use page_table_multiarch.Table32.Cursor.{Session, in_session}
use page_table_multiarch.Table32.Region.{
  rounds, protect_match, protect_round, protect_loop, protect_region,
}

module _ {S V B : Type 0} {e : Platform S V B} (a : IsPlatform e) (f : ℕ) where
  open e use {pte}

  -- A page with the flags `f`; a hole stays.
  abbrev pub with_flags : Entry → Entry
  with_flags none = none
  with_flags (some (word, size)) = some (pte.set_flags word f (is_huge_size size), size)

  -- One round of the loop.
  data Round (owner : Owners) (s : Session S V) (v : ℕ) : Run (Session S V) PageSize → Type 0 where
    on_page :
        {s1 : Session S V} {word : ℕ} {size : PageSize}
        → answers a s v ≡ some (word, size)
        → Changes a owner s s1 size v (with_flags (some (word, size)))
        → Round owner s v (done (ok size) s1)
    on_hole : answers a s v ≡ none → Round owner s v (done (ok size_4k) s)

  -- A round at an address whose entry is known.
  record PageRound (owner : Owners) (s : Session S V) (v word : ℕ) (size : PageSize) : Type 0 where
    after : Session S V
    ends : protect_round e v f s ≡ done (ok size) after
    changes : Changes a owner s after size v (with_flags (some (word, size)))

  -- The region is protected by a run that ends well.
  pub record Protects (s : Session S V) (v size : ℕ) (r : Run (Session S V) (Unit {0}))
      : Type 0 where
    pub after : Session S V
    pub ends : r ≡ done (ok tt) after
    pub rewritten : Rewritten a with_flags s after v size

  module _ (small : f < 64) (accepted : a.accepts f ≡ true) where
    unused-Round :
        {owner : Owners} {s : Session S V} {v : ℕ} (p : ℕ) {size : PageSize}
        → IsSize size
        → (size ≡ size_1m → pte.is_unused (s.memory.words p) ≡ false)
        → pte.is_unused (s.memory.words p) ≡ true
        → answers a s v ≡ none
        → Round owner s v (done (ok size) s)
    unused-Round p is_4k section_used unused here = on_hole here
    unused-Round p is_1m section_used unused here = absurd (cc (section_used refl, unused))

    protect_round-Round :
        {owner : Owners} (s : Session S V) (v : ℕ)
        → IsSession a owner s
        → Round owner s v (protect_round e v f s)
    unfolding protect_round
    protect_round-Round {owner} s v t =
        rw (get_entry_mut_lem e s.cursor.inner v s.memory)
          (from (found-Found a s.memory.words (root_of s) v))
      where
        from :
            {o : Option (ℕ × PageSize)}
            → Found a s.memory.words (root_of s) v o
            → Round owner s v
                (protect_match e v f (in_session s.cursor (done (or_not_mapped e o) s.memory)))
        from (missing unused) = on_hole (answer-unused a (root_of s) (section (inl unused)) unused)
        from (place {p} {size} kind at section_used) =
            elim (Bool-cases (pte.is_unused (s.memory.words p))) [
              | inl unused ↦
                  rw unused (
                    unused-Round p kind section_used unused (answer-unused a (root_of s) at unused))
              | inr used ↦
                  rw (used, push_lem a v, a.lawful.set_flags_lem)
                    (on_page (answer-used a (root_of s) at used) (
                      rw a.lawful.set_flags_lem (
                        written-Changes a s t at kind (pte.paddr (s.memory.words p)) f small
                          accepted)))
            ]

    protect_round-PageRound :
        {owner : Owners} (s : Session S V) (v word : ℕ) (size : PageSize)
        → IsSession a owner s
        → answers a s v ≡ some (word, size)
        → PageRound owner s v word size
    protect_round-PageRound {owner} s v word size t here = from (protect_round-Round s v t) refl
      where
        no_page : {x : ℕ × PageSize} → none ≡ some x → ⊥
        no_page eq = cc

        pair_of : {x y : ℕ × PageSize} → some x ≡ some y → x ≡ y
        pair_of eq = cc

        from :
            {r : Run (Session S V) PageSize}
            → Round owner s v r
            → protect_round e v f s ≡ r
            → PageRound owner s v word size
        from (on_hole gone) eq = absurd (no_page (sym gone ∙ here))
        from (on_page {s1} {word = w} {size = z} answered c) eq =
            subst (λ (x : ℕ × PageSize). PageRound owner s v x.0 x.1)
              (pair_of (sym answered ∙ here)) (record { after = s1; ends = eq; changes = c })

    protect_round-hole :
        {owner : Owners} (s : Session S V) (v : ℕ)
        → IsSession a owner s
        → answers a s v ≡ none
        → protect_round e v f s ≡ done (ok size_4k) s
    protect_round-hole {owner} s v t here = from (protect_round-Round s v t) refl
      where
        no_page : {x : ℕ × PageSize} → none ≡ some x → ⊥
        no_page eq = cc

        from :
            {r : Run (Session S V) PageSize}
            → Round owner s v r
            → protect_round e v f s ≡ r
            → protect_round e v f s ≡ done (ok size_4k) s
        from (on_hole gone) eq = eq
        from (on_page answered c) eq = absurd (no_page (sym here ∙ answered))

    protect_loop-Protects :
        (fuel : ℕ) {owner : Owners} (s : Session S V) (v size : ℕ)
        → size / 0x1000 < fuel
        → v + size ≤ 2 ^ 32
        → IsSession a owner s
        → Tiles a s true v size
        → Protects s v size (protect_loop e f fuel v size s)
    unfolding protect_loop
    protect_loop-Protects zero s v size enough room t tiles = absurd (omega arith)
    protect_loop-Protects (suc fuel) s v size enough room t tiles_end = record {
      after = s;
      ends = refl;
      rewritten = rewritten_none a with_flags s v t;
    }
    protect_loop-Protects (suc fuel) s v size enough room t
          (tiles_hole may here aligned fits rest) =
        let one = hole_round a with_flags aligned (page_room v size 0x1000 fits room) here refl t in
        let later =
          protect_loop-Protects fuel s ((v + 0x1000) % 2 ^ 32) (size - 0x1000) (omega arith)
            (next_room v size 0x1000 fits room) t rest in
        record {
          after = later.after;
          ends =
              rw
                (==_ne size 0 (λ same. absurd (omega (arith, same))), protect_round-hole s v t here)
                (asserted a v _ s is_4k aligned fits ∙ later.ends);
          rewritten =
              rewritten_rest a with_flags is_4k aligned fits room one later.after later.rewritten;
        }
    protect_loop-Protects (suc fuel) s v size enough room t
          (tiles_page {word = word} {chosen = chosen} kind here aligned fits rest) =
        let some_size = size_of-le chosen in
        let first = protect_round-PageRound s v word chosen t here in
        let one =
          page_round a with_flags kind aligned (page_room v size _ fits room) here refl
            first.changes in
        let later =
          protect_loop-Protects fuel first.after ((v + size_of chosen) % 2 ^ 32)
            (size - size_of chosen) (omega (arith, some_size)) (next_room v size _ fits room)
            first.changes.session
            (Tiles-agree a first.after (omega arith) (next_room v size _ fits room)
              (λ u small low high.
                rest_same a with_flags kind aligned fits room one u small low high)
              rest) in
        record {
          after = later.after;
          ends =
              rw (==_ne size 0 (λ same. absurd (omega (arith, same, some_size))), first.ends)
                (asserted a v _ first.after kind aligned fits ∙ later.ends);
          rewritten =
              rewritten_rest a with_flags kind aligned fits room one later.after later.rewritten;
        }

    -- `protect_region`, with flags that make a page, of a region that whole pages and holes of 4K tile,
    -- and that does not reach beyond the address space, succeeds within its rounds and without a panic.
    -- Every page of the region has the new flags afterwards, on the frame that its entry gives; holes
    -- stay, and all other addresses have the entries they had. Every page that was mapped in the region
    -- is to be flushed, with all that was to be flushed before.
    pub protect_region-Protects32 :
        {owner : Owners} (s : Session S V) (v size : ℕ)
        → v + size ≤ 2 ^ 32
        → IsSession a owner s
        → Tiles a s true v size
        → Protects s v size (protect_region e v size f s)
    unfolding protect_region
    protect_region-Protects32 s v size room t tiles =
        protect_loop-Protects (rounds size) s v size (omega arith) room t tiles
