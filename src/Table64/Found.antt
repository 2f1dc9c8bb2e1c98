-- ===== src/Table64/Found.antt =====
-- `get_entry_mut`: the entry that it finds lies on the way of the address and ends the descent.
use page_table_multiarch.Common.{
  ℕ, zero, suc, ◌≤◌, ◌≡◌, refl, sym, ap, ◌∙◌, inl, inr, false, some, Bool-cases, arith,
}
use page_table_multiarch.Paging.{PagingError, PagingResult, ok, err, PageSize, Platform, World}
use page_table_multiarch.Paging.Run.{Run, done}
use page_table_multiarch.Paging.Contract.{IsPlatform}
use page_table_multiarch.Table64.Defs.{PageTable64, Slot, next_table, get_entry_mut}
use page_table_multiarch.Table64.Height.{index_at, route, route_top, size_at}
use page_table_multiarch.Table64.Answer.{answer, descend, follow, is_leaf, get_entry_mut_lem}
use page_table_multiarch.Table64.Placed.{Placement, next_placed}
use page_table_multiarch.Table64.Create.{top, IsTable}
use page_table_multiarch.Table64.Descend.{Reaches, arrived, onward}
use page_table_multiarch.Table64.Reached.{IsPage}
use page_table_multiarch.Table64.Written.{IsEntry}

module _ {S V B : Type 0} {e : Platform S V B} (a : IsPlatform e) (root : ℕ) where
  -- The end of a descent from the table `p` at the height `k`.
  pub data Met (place : Placement) (w : World S) (v k p : ℕ)
      : PagingResult (Slot × PageSize) → Type 0 where
    met :
        {s : Slot} (h : ℕ)
        → h ≤ 2
        → place s.frame ≡ some (h, route (top a root) h v)
        → s.index ≡ index_at h v
        → Reaches a root w.mem h v s k p
        → IsPage a root h (w.mem s.frame s.index)
        → Met place w v k p (ok (s, size_at h))
    missed : {r : PagingError} → answer e k w.mem p v ≡ err r → Met place w v k p (err r)

  module _ {place : Placement} {w : World S} (v : ℕ) where
    -- Down one link.
    beyond :
        {k p : ℕ} (r : PagingResult ℕ)
        → next_table e (w.mem p (index_at (suc k) v)) ≡ r
        → is_leaf e (suc k) (w.mem p (index_at (suc k) v)) ≡ false
        → ((q : ℕ)
            → next_table e (w.mem p (index_at (suc k) v)) ≡ ok q
            → Met place w v k q (descend e k w.mem q v))
        → Met place w v (suc k) p (follow r (λ q. descend e k w.mem q v))
    beyond (err x) link inner rest = missed {r = x} (unfold answer in rw (inner, link))
    beyond {k} {p} (ok q) link inner rest = extend (descend e k w.mem q v) (rest q link)
      where
        extend :
            (r : PagingResult (Slot × PageSize)) → Met place w v k q r → Met place w v (suc k) p r
        extend _ (met h low there index reaches kind) =
            met h low there index (onward link reaches) kind
        extend _ (missed {r = x} none_there) =
            missed {r = x} (unfold answer in rw (inner, link, none_there))

    descend-Met :
        IsTable a root place w
        → (k p : ℕ) → k ≤ top a root
        → place p ≡ some (k, route (top a root) k v)
        → Met place w v k p (descend e k w.mem p v)
    unfolding descend
    descend-Met t zero p le here = met 0 (omega arith) here refl (arrived refl refl) (inl refl)
    descend-Met t (suc k) p le here =
        elim (Bool-cases (is_leaf e (suc k) (w.mem p (index_at (suc k) v)))) [
          | inl leaf ↦ rw leaf (met (suc k) (ground arith) here refl (arrived refl refl) (inr leaf))
          | inr inner ↦ rw inner (
              beyond (next_table e (w.mem p (index_at (suc k) v))) refl inner λ q link.
                descend-Met t k q (omega arith) (next_placed e t.placed k p v q le here link))
        ]

  pub data Found (place : Placement) (w : World S) (v : ℕ)
      : Run (World S) (Slot × PageSize) → Type 0 where
    found :
        {s : Slot} (h : ℕ)
        → h ≤ 2
        → IsEntry a root place w h v s
        → IsPage a root h (w.mem s.frame s.index)
        → Found place w v (done (ok (s, size_at h)) w)
    not_found :
        {r : PagingError}
        → answer e (top a root) w.mem root v ≡ err r
        → Found place w v (done (err r) w)

  pub get_entry_mut-Found :
      (t : PageTable64 B) (v : ℕ) (place : Placement) (w : World S)
      → t.root_paddr ≡ root
      → IsTable a root place w
      → Found place w v (get_entry_mut e t v w)
  get_entry_mut-Found t v place w same table =
      rw
        (get_entry_mut_lem e t v w a.levels
          ∙ ap (λ p. done (descend e (top a root) w.mem p v) w) same)
        (from (
          descend-Met v table (top a root) root (omega arith) (
            table.placed.at_root
            ∙ ap (λ r. some (top a root, r)) (sym (route_top (top a root) v)))))
    where
      from :
          {r : PagingResult (Slot × PageSize)}
          → Met place w v (top a root) root r
          → Found place w v (done r w)
      from (met h low there index reaches kind) =
          found h low (record { there = there; at_index = index; reaches = reaches }) kind
      from (missed none_there) = not_found none_there
