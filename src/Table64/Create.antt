-- ===== src/Table64/Create.antt =====
-- `next_table_mut_or_create`: whatever its result, it leaves a well-formed table in which every
-- address has the answer it had.
use page_table_multiarch.Common.{
  ℕ, suc, ◌+◌, ◌-◌, ◌*◌, ◌<◌, ◌≡◌, ◌≢◌, refl, sym, ap, ◌∙◌, inl, inr, true, false, Option, none,
  some, Bool-cases, Option-cases, ==_refl, arith,
}
use page_table_multiarch.Paging.{PagingError, PagingResult, ok, err, Platform, World, no_memory}
use page_table_multiarch.Paging.Run.{Run, done}
use page_table_multiarch.Paging.Contract.{IsPlatform}
use page_table_multiarch.Entry.Laws.{IsFrame}
use page_table_multiarch.Table64.Defs.{Slot, next_table, next_table_mut_or_create}
use page_table_multiarch.Table64.Height.{route_top}
use page_table_multiarch.Table64.Answer.{answer, next_table_mut_lem}
use page_table_multiarch.Table64.Placed.{Placement, IsPlaced}
use page_table_multiarch.Table64.Link.{
  linked, linked_used, linked_hit, linked_empty, answer-linked, placed_at, placed_at_grows,
  placed_at-IsPlaced, next_table-new_table,
}

module _ {S V B : Type 0} {e : Platform S V B} (a : IsPlatform e) (root : ℕ) where
  abbrev pub top : ℕ
  top = e.meta.levels - 1

  -- A table in a world: its frames are placed, and the allocator counts them as handed out.
  pub record IsTable (place : Placement) (w : World S) : Type 0 where
    pub placed : IsPlaced e top root place w.mem
    pub in_use : (p h x : ℕ) → place p ≡ some (h, x) → a.live w.os p ≡ true

  -- What a command on the table keeps.
  pub record Kept (place : Placement) (w : World S) (place' : Placement) (w' : World S)
      : Type 0 where
    pub table : IsTable place' w'
    pub same : (v : ℕ) → answer e top w'.mem root v ≡ answer e top w.mem root v
    pub grows : (p h x : ℕ) → place p ≡ some (h, x) → place' p ≡ some (h, x)
    pub used : (p i h x : ℕ) → place p ≡ some (h, x) → w.mem p i ≢ 0 → w'.mem p i ≡ w.mem p i
    pub tlb : w'.tlb ≡ w.tlb

  pub Kept-refl : (place : Placement) (w : World S) → IsTable place w → Kept place w place w
  Kept-refl place w t = record {
    table = t;
    same = λ v. refl;
    grows = λ p h x here. here;
    used = λ p i h x here nz. refl;
    tlb = refl;
  }

  pub Kept-trans :
      {place place' place'' : Placement} {w w' w'' : World S}
      → Kept place w place' w'
      → Kept place' w' place'' w''
      → Kept place w place'' w''
  Kept-trans {w} {w'} k l = record {
    table = l.table;
    same = λ v. l.same v ∙ k.same v;
    grows = λ p h x here. l.grows p h x (k.grows p h x here);
    used = λ p i h x here nz.
        l.used p i h x (k.grows p h x here) (λ z. nz (sym (k.used p i h x here nz) ∙ z))
        ∙ k.used p i h x here nz;
    tlb = l.tlb ∙ k.tlb;
  }

  -- A step down from the entry `s`, in a table of the height above `h` with number `x`.
  pub data Stepped (place : Placement) (w : World S) (s : Slot) (h x : ℕ)
      : Run (World S) ℕ → Type 0 where
    stepped :
        {q : ℕ} {w' : World S} (place' : Placement)
        → Kept place w place' w'
        → place' q ≡ some (h, x * 512 + s.index)
        → next_table e (w'.mem s.frame s.index) ≡ ok q
        → Stepped place w s h x (done (ok q) w')
    refused :
        {r : PagingError} {w' : World S} (place' : Placement)
        → Kept place w place' w'
        → Stepped place w s h x (done (err r) w')

  abbrev pub after_alloc : World S → S
  after_alloc w = (e.handler.alloc_frame w.os).1

  module _ (w : World S) (s : Slot) where
    pub existing :
        e.pte.is_unused (w.mem s.frame s.index) ≡ false
        → next_table_mut_or_create e s w ≡ done (next_table e (w.mem s.frame s.index)) w
    unfolding next_table_mut_or_create
    existing used = rw (used, next_table_mut_lem e (w.mem s.frame s.index))

    no_frame :
        e.pte.is_unused (w.mem s.frame s.index) ≡ true
        → (e.handler.alloc_frame w.os).0 ≡ none
        → next_table_mut_or_create e s w ≡ done (err no_memory) (record w { os = after_alloc w })
    unfolding next_table_mut_or_create
    no_frame unused failed = rw unused (ground arith)

    pub new_frame :
        (q : ℕ)
        → e.pte.is_unused (w.mem s.frame s.index) ≡ true
        → (e.handler.alloc_frame w.os).0 ≡ some q
        → next_table_mut_or_create e s w
          ≡ done (ok q) (record w { os = after_alloc w; mem = linked e a.lawful w.mem s q })
    unfolding next_table_mut_or_create
    new_frame q unused got = rw unused (ground arith)

  module _ (place : Placement) (w : World S) (s : Slot) (h x : ℕ) (t : IsTable place w)
      (there : place s.frame ≡ some (suc h, x)) (lt : s.index < 512) where
    existing-Stepped :
        (r : PagingResult ℕ)
        → next_table e (w.mem s.frame s.index) ≡ r
        → Stepped place w s h x (done r w)
    existing-Stepped (ok q) link =
        stepped place (Kept-refl place w t) (t.placed.below s.frame h x s.index q there lt link)
          link
    existing-Stepped (err r) link = refused place (Kept-refl place w t)

    no_frame-Kept :
        (e.handler.alloc_frame w.os).0 ≡ none → Kept place w place (record w { os = after_alloc w })
    no_frame-Kept failed = record {
      table = record {
        placed = t.placed;
        in_use = λ p k y here. a.allocator.alloc_frame_failed w.os p failed ∙ t.in_use p k y here;
      };
      same = λ v. refl;
      grows = λ p k y here. here;
      used = λ p i k y here nz. refl;
      tlb = refl;
    }

    module _ (q : ℕ) (unused : w.mem s.frame s.index ≡ 0)
        (got : (e.handler.alloc_frame w.os).0 ≡ some q) where
      frame : IsFrame a.width q
      frame = a.allocator.alloc_frame_is_frame w.os q got

      fresh_option : (o : Option (ℕ × ℕ)) → place q ≡ o → place q ≡ none
      fresh_option none eq = eq
      fresh_option (some (k, y)) eq =
          absurd (free_in_use (t.in_use q k y eq) (a.allocator.alloc_frame_was_free w.os q got))
        where
          free_in_use : a.live w.os q ≡ true → a.live w.os q ≡ false → ⊥
          free_in_use live free = cc

      fresh : place q ≡ none
      fresh = fresh_option (place q) refl

      new_frame-Kept :
          Kept place w
            (placed_at e a.lawful t.placed s q h x there unused fresh frame)
            (record w { os = after_alloc w; mem = linked e a.lawful w.mem s q })
      new_frame-Kept = record {
        table = record {
          placed = placed_at-IsPlaced e a.lawful t.placed s q h x there unused fresh frame;
          in_use = λ p k y here.
              ground (arith, a.allocator.alloc_frame_live w.os q p got, t.in_use p k y);
        };
        same = λ v.
            answer-linked e a.lawful t.placed s q h x there unused fresh frame top root v
              (omega arith) (t.placed.at_root ∙ ap (λ r. some (top, r)) (sym (route_top top v)));
        grows = placed_at_grows e a.lawful t.placed s q h x there unused fresh frame;
        used = linked_used e a.lawful t.placed s q h x there unused fresh frame;
        tlb = refl;
      }

      new_frame-Stepped :
          Stepped place w s h x
            (done (ok q) (record w { os = after_alloc w; mem = linked e a.lawful w.mem s q }))
      new_frame-Stepped =
          stepped (placed_at e a.lawful t.placed s q h x there unused fresh frame) new_frame-Kept
            (rw (==_refl q))
            (rw (linked_hit e a.lawful t.placed s q h x there unused fresh frame)
              (next_table-new_table e a.lawful q frame))

      -- The new table is placed below the entry and is empty.
      pub new_frame-empty :
          (place' : Placement) × IsTable place'
            (record w { os = after_alloc w; mem = linked e a.lawful w.mem s q })
          × (place' q ≡ some (h, x * 512 + s.index))
          × ((i : ℕ) → linked e a.lawful w.mem s q q i ≡ 0)
      new_frame-empty = (
        placed_at e a.lawful t.placed s q h x there unused fresh frame,
        new_frame-Kept.table,
        rw (==_refl q),
        linked_empty e a.lawful t.placed s q h x there unused fresh frame,
      )

    pub next_table_mut_or_create-Stepped : Stepped place w s h x (next_table_mut_or_create e s w)
    next_table_mut_or_create-Stepped = elim (Bool-cases (e.pte.is_unused (w.mem s.frame s.index))) [
      | inr used ↦ rw (existing w s used) (existing-Stepped _ refl)
      | inl unused ↦ elim (Option-cases (e.handler.alloc_frame w.os).0) [
        | inl failed ↦ rw (no_frame w s unused failed) (refused place (no_frame-Kept failed))
        | inr (q, got) ↦ rw (new_frame w s q unused got) (new_frame-Stepped q (is_zero unused) got)
      ]
    ]
      where
        is_zero : e.pte.is_unused (w.mem s.frame s.index) ≡ true → w.mem s.frame s.index ≡ 0
        is_zero unused = ground (arith, a.lawful.is_unused_lem (w.mem s.frame s.index))
