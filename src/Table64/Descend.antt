-- ===== src/Table64/Descend.antt =====
-- `get_entry_mut_or_create` as a recursion on the height, and its outcomes.
use page_table_multiarch.Table64.Create.{
  top, IsTable, Kept, Kept-refl, Kept-trans, Stepped, stepped, refused,
  next_table_mut_or_create-Stepped,
}
use page_table_multiarch.Common.{
  ℕ, zero, suc, ◌-◌, ◌≤◌, ◌≡◌, ◌≢◌, refl, sym, ap, ◌∙◌, ◌⊎◌, inl, inr, some, ◌==◌, if◌then◌else◌,
  Bool-cases, ==_iff, arith,
}
use page_table_multiarch.Paging.{
  PagingError, ok, err, PageSize, size_4k, size_1m, size_2m, size_1g, Platform, World,
}
use page_table_multiarch.Paging.Run.{Run, done, Cmd, pure, and_then, ◌>>=◌}
use page_table_multiarch.Paging.Contract.{IsPlatform}
use page_table_multiarch.Table64.Defs.{
  PageTable64, Slot, slot, next_table, next_table_mut_or_create, get_entry_mut_or_create,
}
use page_table_multiarch.Table64.Height.{
  index_at, route, index_at-lt, route_step, route_top, height_of, p1_index-index_at,
  p2_index-index_at, p3_index-index_at, p4_index-index_at,
}
use page_table_multiarch.Table64.Answer.{Memory}
use page_table_multiarch.Table64.Placed.{Placement}
use page_table_multiarch.Table64.Link.{next_table-zero}

module _ {S V B : Type 0} {e : Platform S V B} (a : IsPlatform e) (root : ℕ) where
  -- `get_entry_mut_or_create` as a recursion on the height.
  unfoldable pub create : (target height table vaddr : ℕ) → Cmd (World S) Slot
  create target zero p v = pure (slot p (index_at 0 v))
  create target (suc h) p v =
      let s = slot p (index_at (suc h) v) in
      let rest = next_table_mut_or_create e s >>= λ q. create target h q v in
      if suc h == target then pure s else rest

  create_three :
      (t : PageTable64 B) (v : ℕ) (size : PageSize) (w : World S)
      → e.meta.levels ≡ 3
      → get_entry_mut_or_create e t v size w ≡ create (height_of size) 2 t.root_paddr v w
  unfolding get_entry_mut_or_create create
  create_three t v size_1g w l = rw (l, p3_index-index_at v)
  create_three t v size_2m w l = rw (l, p3_index-index_at v, p2_index-index_at v)
  create_three t v size_1m w l =
      rw (l, p3_index-index_at v, p2_index-index_at v, p1_index-index_at v)
  create_three t v size_4k w l =
      rw (l, p3_index-index_at v, p2_index-index_at v, p1_index-index_at v)

  create_four :
      (t : PageTable64 B) (v : ℕ) (size : PageSize) (w : World S)
      → e.meta.levels ≡ 4
      → get_entry_mut_or_create e t v size w ≡ create (height_of size) 3 t.root_paddr v w
  unfolding get_entry_mut_or_create create
  create_four t v size_1g w l = rw (l, p4_index-index_at v, p3_index-index_at v)
  create_four t v size_2m w l =
      rw (l, p4_index-index_at v, p3_index-index_at v, p2_index-index_at v)
  create_four t v size_1m w l =
      rw (l, p4_index-index_at v, p3_index-index_at v, p2_index-index_at v, p1_index-index_at v)
  create_four t v size_4k w l =
      rw (l, p4_index-index_at v, p3_index-index_at v, p2_index-index_at v, p1_index-index_at v)

  -- The links from a table at a height down to the entry `s` at the height `target`.
  pub data Reaches (mem : Memory) (target v : ℕ) (s : Slot) : ℕ → ℕ → Type 0 where
    arrived : {h p : ℕ} → h ≡ target → s ≡ slot p (index_at h v) → Reaches mem target v s h p
    onward :
        {h p q : ℕ}
        → next_table e (mem p (index_at (suc h) v)) ≡ ok q
        → Reaches mem target v s h q
        → Reaches mem target v s (suc h) p

  pub data Created (place : Placement) (w : World S) (target v h p : ℕ)
      : Run (World S) Slot → Type 0 where
    created :
        {s : Slot} {w' : World S} (place' : Placement)
        → Kept a root place w place' w'
        → place' s.frame ≡ some (target, route (top a root) target v)
        → s.index ≡ index_at target v
        → Reaches w'.mem target v s h p
        → Created place w target v h p (done (ok s) w')
    not_created :
        {r : PagingError} {w' : World S} (place' : Placement)
        → Kept a root place w place' w'
        → Created place w target v h p (done (err r) w')

  module _ (target v : ℕ) where
    here-Created :
        (place : Placement) (w : World S) (h p : ℕ)
        → IsTable a root place w
        → h ≡ target
        → place p ≡ some (h, route (top a root) h v)
        → Created place w target v h p (done (ok (slot p (index_at h v))) w)
    here-Created place w h p t same here =
        created place (Kept-refl a root place w t)
          (here ∙ ap (λ k. some (k, route (top a root) k v)) same) (ap (λ k. index_at k v) same)
          (arrived same refl)

    -- The step above a descent that ends well.
    above :
        {place place' : Placement} {w w' : World S} {h p q : ℕ} {r : Run (World S) Slot}
        → Kept a root place w place' w'
        → place p ≡ some (suc h, route (top a root) (suc h) v)
        → next_table e (w'.mem p (index_at (suc h) v)) ≡ ok q
        → Created place' w' target v h q r
        → Created place w target v (suc h) p r
    above {w'} {h} {p} {q} k here link (created {w' = w''} place'' l there index reaches) =
        created place'' (Kept-trans a root k l) there index
          (onward (ap (next_table e) kept ∙ link) reaches)
      where
        in_use : w'.mem p (index_at (suc h) v) ≢ 0
        in_use z = cc (ap (next_table e) z, link, next_table-zero e a.lawful)

        kept : w''.mem p (index_at (suc h) v) ≡ w'.mem p (index_at (suc h) v)
        kept =
            l.used p (index_at (suc h) v) (suc h) (route (top a root) (suc h) v)
              (k.grows p (suc h) (route (top a root) (suc h) v) here) in_use
    above k here link (not_created place'' l) = not_created place'' (Kept-trans a root k l)

    onward-Created :
        {place : Placement} {w : World S} {h p : ℕ} {r : Run (World S) ℕ}
        → suc h ≤ (top a root)
        → place p ≡ some (suc h, route (top a root) (suc h) v)
        → Stepped a root place w (slot p (index_at (suc h) v)) h (route (top a root) (suc h) v) r
        → ((q : ℕ) (place' : Placement) (w' : World S)
            → IsTable a root place' w'
            → place' q ≡ some (h, route (top a root) h v)
            → Created place' w' target v h q (create target h q v w'))
        → Created place w target v (suc h) p (and_then r (λ q. create target h q v))
    onward-Created {h} le here (stepped {q} {w'} place' k there link) rest = above k here link (
        rest q place' w' k.table
          (there ∙ ap (λ x. some (h, x)) (sym (route_step (top a root) h v le))))
    onward-Created le here (refused place' k) rest = not_created place' k

    create-Created :
        (h p : ℕ) (place : Placement) (w : World S)
        → IsTable a root place w
        → target ≤ h
        → h ≤ (top a root)
        → place p ≡ some (h, route (top a root) h v)
        → Created place w target v h p (create target h p v w)
    unfolding create
    create-Created zero p place w t low high here = here-Created place w 0 p t (omega arith) here
    create-Created (suc h) p place w t low high here = elim (Bool-cases (suc h == target)) [
      | inl same ↦ rw same (here-Created place w (suc h) p t ((==_iff (suc h) target).0 same) here)
      | inr other ↦ rw other (
          onward-Created high here
            (next_table_mut_or_create-Stepped a root place w (slot p (index_at (suc h) v)) h
              (route (top a root) (suc h) v) t here (index_at-lt (suc h) v))
            λ q place' w' t' there.
              create-Created h q place' w' t' (ground (arith, other)) (omega arith) there)
    ]

  -- The two kinds of platform at once.
  pub get_entry_mut_or_create-create :
      (t : PageTable64 B) (v : ℕ) (size : PageSize) (w : World S)
      → (e.meta.levels ≡ 3) ⊎ (e.meta.levels ≡ 4)
      → get_entry_mut_or_create e t v size w ≡ create (height_of size) (top a root) t.root_paddr v w
  get_entry_mut_or_create-create t v size w (inl l) =
      rw (ap (λ n. n - 1) l) (create_three t v size w l)
  get_entry_mut_or_create-create t v size w (inr l) =
      rw (ap (λ n. n - 1) l) (create_four t v size w l)

  pub height_of-le-top : (size : PageSize) → height_of size ≤ top a root
  height_of-le-top size_4k = omega (arith, a.levels)
  height_of-le-top size_1m = omega (arith, a.levels)
  height_of-le-top size_2m = ground (arith, a.levels)
  height_of-le-top size_1g = ground (arith, a.levels)

  -- `get_entry_mut_or_create` on a well-formed table: whether it gives an entry or an error, the table
  -- is well formed, every address has the answer it had, the tables that stood there stand at their
  -- places, entries in use are unchanged and nothing is flushed. The entry that it gives is that of
  -- the address in a table of the height of the page size, and links lead to it from the root.
  pub get_entry_mut_or_create-Created :
      (t : PageTable64 B) (v : ℕ) (size : PageSize) (place : Placement) (w : World S)
      → t.root_paddr ≡ root
      → IsTable a root place w
      → Created place w (height_of size) v (top a root) root (get_entry_mut_or_create e t v size w)
  get_entry_mut_or_create-Created t v size place w same table =
      rw
        (get_entry_mut_or_create-create t v size w a.levels
          ∙ ap (λ p. create (height_of size) (top a root) p v w) same)
        (create-Created (height_of size) v (top a root) root place w table (height_of-le-top size)
          (omega arith)
          (table.placed.at_root
            ∙ ap (λ r. some ((top a root), r)) (sym (route_top (top a root) v))))
