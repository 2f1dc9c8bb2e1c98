-- ===== src/Table64/Reached.antt =====
-- A write to an entry that a descent reaches: what the addresses of its page are answered then,
-- and that the tables keep their shape.
use page_table_multiarch.Common.{
  ℕ, zero, suc, ◌≤◌, ◌≡◌, ◌≢◌, sym, ap, ◌∙◌, ◌⊎◌, inl, inr, true, false, ◌&&◌, some, ◌==◌,
  Bool-cases, ==_iff, ==_refl, ==_ne, arith,
}
use page_table_multiarch.Paging.{ok, err, Platform, not_mapped}
use page_table_multiarch.Paging.Contract.{IsPlatform}
use page_table_multiarch.Table64.Defs.{Slot, slot, store, next_table}
use page_table_multiarch.Table64.Height.{index_at, route, size_at}
use page_table_multiarch.Table64.Answer.{Memory, answer, present, is_leaf}
use page_table_multiarch.Table64.Placed.{Placement, IsPlaced, next_placed}
use page_table_multiarch.Table64.Link.{answer-next, answer-unused}
use page_table_multiarch.Table64.Create.{top}
use page_table_multiarch.Table64.Descend.{Reaches, arrived, onward}

module _ {S V B : Type 0} {e : Platform S V B} (a : IsPlatform e) (root : ℕ) where
  -- An entry that ends a descent: of a lowest table, or a larger page.
  abbrev pub IsPage : ℕ → ℕ → Type 0
  IsPage h word = (h ≡ 0) ⊎ (is_leaf e h word ≡ true)

  -- An entry that leads to no table.
  abbrev pub IsEnd : ℕ → ℕ → Type 0
  IsEnd h word = (h ≡ 0) ⊎ ((q : ℕ) → next_table e word ≢ ok q)

  module _ {mem : Memory} {target v : ℕ} {s : Slot} where
    Reaches-le : {h p : ℕ} → Reaches a root mem target v s h p → target ≤ h
    Reaches-le (arrived same here) = omega arith
    Reaches-le (onward link r) = omega (arith, Reaches-le r)

    -- The addresses of the page reach the same entry.
    pub Reaches-same :
        {h p : ℕ} (u : ℕ)
        → ((k : ℕ) → target ≤ k → k ≤ top a root → index_at k u ≡ index_at k v)
        → h ≤ top a root
        → Reaches a root mem target v s h p
        → Reaches a root mem target u s h p
    Reaches-same u same le (arrived {h} {p} eq here) =
        arrived eq (here ∙ ap (slot p) (sym (same h (omega arith) le)))
    Reaches-same u same le (onward {h} {p} link r) =
        let below = Reaches-le r in
        onward (ap (λ i. next_table e (mem p i)) (same (suc h) (omega arith) le) ∙ link)
          (Reaches-same u same (omega arith) r)

    -- Its answer is that of the entry reached.
    pub answer-reached :
        {h p : ℕ}
        → Reaches a root mem target v s h p
        → (s.index ≡ index_at target v) × (answer e h mem p v ≡ answer e target mem s.frame v)
    answer-reached (arrived {h} {p} same here) = (
      ap (λ r. r.index) here ∙ ap (λ k. index_at k v) same,
      ap (λ k. answer e k mem p v) same ∙ ap (λ r. answer e target mem r.frame v) (sym here),
    )
    answer-reached (onward {h} {p} {q} link r) =
        let (index, below) = answer-reached r in (index, answer-next e h p q v mem link ∙ below)

  -- The answer at a page entry.
  pub answer-leaf :
      (h p v word : ℕ) (mem : Memory)
      → IsPage h word
      → mem p (index_at h v) ≡ word
      → answer e h mem p v ≡ present e word (size_at h)
  unfolding answer
  answer-leaf zero p v word mem kind here = rw here
  answer-leaf (suc h) p v word mem (inl zero_height) here = absurd (omega arith)
  answer-leaf (suc h) p v word mem (inr leaf) here = rw (here, leaf)

  store-hit :
      (mem : Memory) (s : Slot) (word i : ℕ) → s.index ≡ i → store mem s word s.frame i ≡ word
  store-hit mem s word i same = rw (← same, ==_refl s.frame, ==_refl s.index)

  module _ {place : Placement} {mem : Memory} (placed : IsPlaced e (top a root) root place mem)
      (target v : ℕ) (s : Slot) (there : place s.frame ≡ some (target, route (top a root) target v))
      (word : ℕ) where
    other_frame :
        (h p i : ℕ)
        → target ≤ h
        → place p ≡ some (suc h, route (top a root) (suc h) v)
        → store mem s word p i ≡ mem p i
    other_frame h p i le here = rw (==_ne p s.frame λ same. absurd (ground (arith, ap place same)))

    -- The write leaves the links above it.
    pub Reaches-store :
        {h p : ℕ}
        → h ≤ top a root
        → place p ≡ some (h, route (top a root) h v)
        → Reaches a root mem target v s h p
        → Reaches a root (store mem s word) target v s h p
    Reaches-store le here (arrived eq at) = arrived eq at
    Reaches-store le here (onward {h} {p} {q} link r) =
        onward (ap (next_table e) (other_frame h p (index_at (suc h) v) (Reaches-le r) here) ∙ link)
          (Reaches-store (omega arith) (next_placed e placed h p v q le here link) r)

    -- A page entry in place: the address is answered from it.
    pub answer-written :
        {h p : ℕ}
        → IsPage target word
        → h ≤ top a root
        → place p ≡ some (h, route (top a root) h v)
        → Reaches a root mem target v s h p
        → answer e h (store mem s word) p v ≡ present e word (size_at target)
    answer-written kind le here r =
        let (index, answers) = answer-reached (Reaches-store le here r) in
        answers
        ∙ answer-leaf target s.frame v word (store mem s word) kind
            (store-hit mem s word (index_at target v) index)

    -- The entry cleared: the address is not mapped.
    pub answer-cleared :
        {h p : ℕ}
        → word ≡ 0
        → h ≤ top a root
        → place p ≡ some (h, route (top a root) h v)
        → Reaches a root mem target v s h p
        → answer e h (store mem s word) p v ≡ err not_mapped
    answer-cleared zeroed le here r =
        let (index, answers) = answer-reached (Reaches-store le here r) in
        answers
        ∙ answer-unused e a.lawful target s.frame v (store mem s word)
            (store-hit mem s word (index_at target v) index ∙ zeroed)

    store_other :
        (p i : ℕ) → ((p == s.frame) && (i == s.index)) ≡ false → store mem s word p i ≡ mem p i
    store_other p i miss = ground arith

    no_link :
        (p h x i q : ℕ)
        → IsEnd target word
        → place p ≡ some (suc h, x)
        → ((p == s.frame) && (i == s.index)) ≡ true
        → next_table e (store mem s word p i) ≢ ok q
    no_link p h x i q (inl lowest) here hit link =
        absurd (ground (arith, ap place ((==_iff p s.frame).0 (ground arith))))
    no_link p h x i q (inr ends) here hit link = ends q (ap (next_table e) (sym written) ∙ link)
      where
        written : store mem s word p i ≡ word
        written = ground arith

    -- An entry that leads to no table keeps the shape of the tables.
    pub IsPlaced-store : IsEnd target word → IsPlaced e (top a root) root place (store mem s word)
    IsPlaced-store ends = record {
      at_root = placed.at_root;
      below = λ p h x i q here lt link. elim (Bool-cases ((p == s.frame) && (i == s.index))) [
        | inl hit ↦ absurd (no_link p h x i q ends here hit link)
        | inr miss ↦
            placed.below p h x i q here lt (ap (next_table e) (sym (store_other p i miss)) ∙ link)
      ];
    }
