-- ===== src/Table64/Link.antt =====
-- A new table below an unused entry: no address gets another answer, and the placement grows.
use page_table_multiarch.Common.{
  ℕ, zero, suc, ◌+◌, ◌*◌, ◌≤◌, ◌<◌, ◌≡◌, ◌≢◌, sym, ap, ◌∙◌, inl, inr, Bool, true, false, ◌&&◌, none,
  some, ◌==◌, if◌then◌else◌, Bool-cases, ==_iff, ==_refl, ==_ne, arith,
}
use page_table_multiarch.Paging.{ok, err, Platform, not_mapped}
use page_table_multiarch.Entry.Laws.{IsFrame, IsLawful}
use page_table_multiarch.Table64.Defs.{Slot, store, zeroed, next_table}
use page_table_multiarch.Table64.Height.{index_at, route}
use page_table_multiarch.Table64.Answer.{Memory, answer, answer-eq}
use page_table_multiarch.Table64.Placed.{Placement, IsPlaced, next_placed}

module _ {S V B : Type 0} (e : Platform S V B) where
  -- A link is not a page: the descent goes on.
  pub answer-next :
      (h p q v : ℕ) (mem : Memory)
      → next_table e (mem p (index_at (suc h) v)) ≡ ok q
      → answer e (suc h) mem p v ≡ answer e h mem q v
  unfolding answer next_table
  answer-next h p q v mem link = ground arith

module _ {S V B : Type 0} (e : Platform S V B) {width : ℕ} {accepts : ℕ → Bool} {seen : ℕ → ℕ}
    (laws : IsLawful e.pte width accepts seen) where
  pub next_table-zero : next_table e 0 ≡ err not_mapped
  unfolding next_table
  next_table-zero = rw laws.paddr-zero

  pub next_table-new_table : (q : ℕ) → IsFrame width q → next_table e (e.pte.new_table q) ≡ ok q
  unfolding next_table
  next_table-new_table q frame = ground (arith, laws.paddr-new_table q, laws.is_huge-new_table q)

  -- An unused entry ends the descent, as a page that is not present or as a missing link.
  pub answer-unused :
      (h p v : ℕ) (mem : Memory) → mem p (index_at h v) ≡ 0 → answer e h mem p v ≡ err not_mapped
  unfolding answer
  answer-unused zero p v mem unused = rw (unused, laws.is_present-zero)
  answer-unused (suc h) p v mem unused =
      rw unused (ground (arith, next_table-zero, laws.is_present-zero))

  -- The memory once the frame `q` is cleared and entry `s` points to it.
  abbrev pub linked : Memory → Slot → ℕ → Memory
  linked mem s q = store (zeroed mem q) s (e.pte.new_table q)

  module _ {top root : ℕ} {place : Placement} {mem : Memory}
      (placed : IsPlaced e top root place mem) (s : Slot) (q h0 x0 : ℕ)
      (there : place s.frame ≡ some (suc h0, x0)) (unused : mem s.frame s.index ≡ 0)
      (fresh : place q ≡ none) (frame : IsFrame width q) where
    placed-ne : (p h x : ℕ) → place p ≡ some (h, x) → (p == q) ≡ false
    placed-ne p h x here = ==_ne p q (λ same. cc)

    -- Entries in use, of tables, stay as they are.
    pub linked_used :
        (p i h x : ℕ) → place p ≡ some (h, x) → mem p i ≢ 0 → linked mem s q p i ≡ mem p i
    linked_used p i h x here used = ground (arith, placed-ne p h x here)

    linked_miss :
        (p i h x : ℕ)
        → place p ≡ some (h, x)
        → ((p == s.frame) && (i == s.index)) ≡ false
        → linked mem s q p i ≡ mem p i
    linked_miss p i h x here miss = ground (arith, placed-ne p h x here)

    pub linked_hit : linked mem s q s.frame s.index ≡ e.pte.new_table q
    linked_hit = ground (arith, ==_refl s.frame, ==_refl s.index)

    pub linked_empty : (i : ℕ) → linked mem s q q i ≡ 0
    linked_empty i = ground (arith, placed-ne s.frame (suc h0) x0 there, ==_refl q)

    hit-frame :
        (p i : ℕ) → ((p == s.frame) && (i == s.index)) ≡ true → (p ≡ s.frame) × (i ≡ s.index)
    hit-frame p i hit = ground arith

    -- At the entry itself: nothing was mapped below it, and nothing is.
    answer-linked_hit :
        (h p v : ℕ)
        → p ≡ s.frame
        → index_at (suc h) v ≡ s.index
        → answer e (suc h) (linked mem s q) p v ≡ answer e (suc h) mem p v
    answer-linked_hit h p v same_frame same_index =
        answer-next e h p q v (linked mem s q) link
        ∙ answer-unused h q v (linked mem s q) (linked_empty (index_at h v))
        ∙ sym (answer-unused (suc h) p v mem (rw (same_frame, same_index) unused))
      where
        link : next_table e (linked mem s q p (index_at (suc h) v)) ≡ ok q
        link = rw (same_frame, same_index, linked_hit) (next_table-new_table q frame)

    -- Every address gets the answer that it got before.
    pub answer-linked :
        (h p v : ℕ)
        → h ≤ top
        → place p ≡ some (h, route top h v)
        → answer e h (linked mem s q) p v ≡ answer e h mem p v
    answer-linked zero p v le here =
        elim (Bool-cases ((p == s.frame) && (index_at 0 v == s.index))) [
          | inl hit ↦
              absurd (ground (arith, there, here, ap place (hit-frame p (index_at 0 v) hit).0))
          | inr miss ↦ unfold answer in rw (linked_miss p (index_at 0 v) 0 _ here miss)
        ]
    answer-linked (suc h) p v le here =
        elim (Bool-cases ((p == s.frame) && (index_at (suc h) v == s.index))) [
          | inl hit ↦
              let (same_frame, same_index) = hit-frame p (index_at (suc h) v) hit in
              answer-linked_hit h p v same_frame same_index
          | inr miss ↦
              answer-eq e h p v (linked mem s q) mem
                (linked_miss p (index_at (suc h) v) (suc h) _ here miss)
                λ q' link.
                  answer-linked h q' v (omega arith) (next_placed e placed h p v q' le here link)
        ]

    -- The placement with the new table in it.
    abbrev pub placed_at : Placement
    placed_at p = if p == q then some (h0, x0 * 512 + s.index) else place p

    pub placed_at_grows : (p h x : ℕ) → place p ≡ some (h, x) → placed_at p ≡ some (h, x)
    placed_at_grows p h x here = rw (placed-ne p h x here) here

    -- A link of an old table leads where the placement says, the new link included.
    below_old :
        (p h x i q' : ℕ)
        → place p ≡ some (suc h, x)
        → i < 512
        → next_table e (linked mem s q p i) ≡ ok q'
        → placed_at q' ≡ some (h, x * 512 + i)
    below_old p h x i q' here lt link = elim (Bool-cases ((p == s.frame) && (i == s.index))) [
      | inl hit ↦
          let (same_frame, same_index) = hit-frame p i hit in
          let link' : next_table e (e.pte.new_table q) ≡ ok q' =
            rw (same_frame, same_index, linked_hit) at link in
          ground (
            arith,
            next_table-new_table q frame,
            link',
            there,
            here,
            ap place same_frame,
            ==_refl q,
          )
      | inr miss ↦
          placed_at_grows q' h (x * 512 + i)
            (placed.below p h x i q' here lt (rw (linked_miss p i (suc h) x here miss) at link))
    ]

    pub placed_at-IsPlaced : IsPlaced e top root placed_at (linked mem s q)
    placed_at-IsPlaced = record {
      at_root = placed_at_grows root top 0 placed.at_root;
      below = λ p h x i q' here lt link. elim (Bool-cases (p == q)) [
        | inl new ↦ absurd (no_link p i q' ((==_iff p q).0 new) link)
        | inr old ↦ below_old p h x i q' (rw old at here) lt link
      ];
    }
      where
        no_link : (p i q' : ℕ) → p ≡ q → next_table e (linked mem s q p i) ≡ ok q' → ⊥
        no_link p i q' same link = cc (next_table-zero, ap (next_table e) (linked_empty i), same)
