-- ===== src/Table64/Written.antt =====
-- An entry on the way of an address is written: the table stays well formed, the addresses of its
-- page are answered from the entry, and all others as before.
use page_table_multiarch.Common.{ℕ, ◌≡◌, ◌≢◌, refl, sym, ap, ◌∙◌, some, arith}
use page_table_multiarch.Paging.{err, Platform, World, not_mapped}
use page_table_multiarch.Paging.Contract.{IsPlatform}
use page_table_multiarch.Table64.Defs.{Slot, store}
use page_table_multiarch.Table64.Height.{
  index_at, route, route_top, page, page-eq, size_at, route-same, index-same, index-same_above,
}
use page_table_multiarch.Table64.Answer.{answer, present}
use page_table_multiarch.Table64.Placed.{Placement, answer-store}
use page_table_multiarch.Table64.Create.{top, IsTable}
use page_table_multiarch.Table64.Descend.{Reaches}
use page_table_multiarch.Table64.Reached.{
  IsPage, IsEnd, Reaches-same, answer-reached, answer-written, answer-cleared, IsPlaced-store,
}

abbrev pub rewritten : {S : Type 0} → World S → Slot → ℕ → World S
rewritten w s word = record w { mem = store w.mem s word }

module _ {S V B : Type 0} {e : Platform S V B} (a : IsPlatform e) (root : ℕ) where
  -- The entry `s` is that of `v` in a table of the height `h`.
  pub record IsEntry (place : Placement) (w : World S) (h v : ℕ) (s : Slot) : Type 0 where
    pub there : place s.frame ≡ some (h, route (top a root) h v)
    pub at_index : s.index ≡ index_at h v
    pub reaches : Reaches a root w.mem h v s (top a root) root

  module _ {place : Placement} {w : World S} {h v : ℕ} {s : Slot} (t : IsTable a root place w)
      (at : IsEntry place w h v s) where
    at_root : (u : ℕ) → place root ≡ some (top a root, route (top a root) (top a root) u)
    at_root u = t.placed.at_root ∙ ap (λ r. some (top a root, r)) (sym (route_top (top a root) u))

    -- The page's addresses have the entry in common.
    pub shared : (u : ℕ) → page (top a root) h u ≡ page (top a root) h v → IsEntry place w h u s
    shared u same = record {
      there = at.there ∙ ap (λ r. some (h, r)) (sym (route-same (top a root) h u v same));
      at_index = at.at_index ∙ sym (index-same (top a root) h u v same);
      reaches =
          Reaches-same a root u (λ k low high. index-same_above (top a root) h k u v low high same)
            (omega arith) at.reaches;
    }

    pub answer-entry : answer e (top a root) w.mem root v ≡ answer e h w.mem s.frame v
    answer-entry = (answer-reached a root at.reaches).1

    module _ (word : ℕ) where
      pub rewritten-IsTable : IsEnd a root h word → IsTable a root place (rewritten w s word)
      rewritten-IsTable ends = record {
        placed = IsPlaced-store a root t.placed h v s at.there word ends;
        in_use = t.in_use;
      }

      pub rewritten_others :
          (u : ℕ)
          → page (top a root) h u ≢ page (top a root) h v
          → answer e (top a root) (rewritten w s word).mem root u
            ≡ answer e (top a root) w.mem root u
      rewritten_others u apart =
          answer-store e t.placed s word h (route (top a root) h v) at.there u
            (λ same. apart (
              same
              ∙ sym (
                  page-eq (top a root) h v (route (top a root) h v) s.index refl
                    (sym at.at_index))))
            (top a root) root (omega arith) (at_root u)

      pub rewritten-page :
          (u : ℕ)
          → IsPage a root h word
          → page (top a root) h u ≡ page (top a root) h v
          → answer e (top a root) (rewritten w s word).mem root u ≡ present e word (size_at h)
      rewritten-page u kind same =
          answer-written a root t.placed h u s (shared u same).there word kind (omega arith)
            (at_root u) (shared u same).reaches

      pub cleared_page :
          (u : ℕ)
          → word ≡ 0
          → page (top a root) h u ≡ page (top a root) h v
          → answer e (top a root) (rewritten w s word).mem root u ≡ err not_mapped
      cleared_page u zeroed same =
          answer-cleared a root t.placed h u s (shared u same).there word zeroed (omega arith)
            (at_root u) (shared u same).reaches
