-- ===== src/Table64/Placed.antt =====
-- The shape of the tables in memory. A placement gives to each frame that serves as a table its
-- height and its route. That every link leads to the frame placed below it is what makes two
-- addresses meet in an entry only where they share the page.
use page_table_multiarch.Common.{
  ℕ, zero, suc, ◌+◌, ◌*◌, ◌≤◌, ◌<◌, ◌≡◌, ◌≢◌, sym, ap, ◌∙◌, inl, inr, Option, some, ◌==◌,
  Bool-cases, ==_iff, arith,
}
use page_table_multiarch.Paging.{ok, Platform}
use page_table_multiarch.Table64.Defs.{Slot, store, next_table}
use page_table_multiarch.Table64.Height.{index_at, route, page, index_at-lt, route_step, page-eq}
use page_table_multiarch.Table64.Answer.{Memory, answer, answer-eq}

abbrev pub Placement : Type 0
Placement = ℕ → Option (ℕ × ℕ)

-- On its way an address does not read an entry of another page.
store-miss :
    (top : ℕ) (place : Placement) (mem : Memory) (s : Slot) (word h0 x0 h p v : ℕ)
    → place s.frame ≡ some (h0, x0)
    → place p ≡ some (h, route top h v)
    → page top h0 v ≢ x0 * 512 + s.index
    → store mem s word p (index_at h v) ≡ mem p (index_at h v)
store-miss top place mem s word h0 x0 h p v there here apart = elim (Bool-cases (p == s.frame)) [
  | inl same ↦ ground (arith, page-eq top h0 v x0 s.index, ap place ((==_iff p s.frame).0 same))
  | inr other ↦ rw other
]

module _ {S V B : Type 0} (e : Platform S V B) (top : ℕ) where
  pub record IsPlaced (root : ℕ) (place : Placement) (mem : Memory) : Type 0 where
    pub at_root : place root ≡ some (top, 0)
    pub below :
        (p h x i q : ℕ)
        → place p ≡ some (suc h, x)
        → i < 512
        → next_table e (mem p i) ≡ ok q
        → place q ≡ some (h, x * 512 + i)

module _ {S V B : Type 0} (e : Platform S V B) where
  -- Where a descent goes on to a table, that table is placed on the way of the address.
  pub next_placed :
      {top root : ℕ} {place : Placement} {mem : Memory}
      → IsPlaced e top root place mem
      → (h p v q : ℕ) → suc h ≤ top
      → place p ≡ some (suc h, route top (suc h) v)
      → next_table e (mem p (index_at (suc h) v)) ≡ ok q
      → place q ≡ some (h, route top h v)
  next_placed {top} placed h p v q le here link =
      placed.below p h (route top (suc h) v) (index_at (suc h) v) q here (index_at-lt (suc h) v)
        link
      ∙ ap (λ x. some (h, x)) (sym (route_step top h v le))

  -- A write to an entry is seen only by addresses whose way leads through that entry.
  pub answer-store :
      {top root : ℕ} {place : Placement} {mem : Memory}
      → IsPlaced e top root place mem
      → (s : Slot) (word h0 x0 : ℕ) → place s.frame ≡ some (h0, x0)
      → (v : ℕ) → page top h0 v ≢ x0 * 512 + s.index
      → (h p : ℕ) → h ≤ top
      → place p ≡ some (h, route top h v)
      → answer e h (store mem s word) p v ≡ answer e h mem p v
  answer-store {top} {place} {mem} placed s word h0 x0 there v apart zero p le here =
      unfold answer in rw (store-miss top place mem s word h0 x0 0 p v there here apart)
  answer-store {top} {place} {mem} placed s word h0 x0 there v apart (suc h) p le here =
      answer-eq e h p v (store mem s word) mem
        (store-miss top place mem s word h0 x0 (suc h) p v there here apart)
        λ q link.
          answer-store placed s word h0 x0 there v apart h q (omega arith)
            (next_placed placed h p v q le here link)
