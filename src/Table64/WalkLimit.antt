-- ===== src/Table64/WalkLimit.antt =====
-- The limit of `walk`: which entries of one table are visited.
use Prim.Native.Nat.{max}
use page_table_multiarch.Common.{
  ℕ, zero, suc, ◌+◌, ◌-◌, ◌*◌, ◌%◌, ◌^◌, ◌<◌, ◌≡◌, refl, ap, ◌∙◌, inl, inr, Bool, true, false, not,
  ◌&&◌, List, [], ◌∷◌, ◌++◌, ltb, leb, ◌==◌, ==_refl, if◌then◌else◌, Bool-cases, arith,
}
use page_table_multiarch.Paging.{PagingResult, ok, err, Platform, World}
use page_table_multiarch.Table64.Defs.{entry_count, next_table}
use page_table_multiarch.Paging.Visit.{Visit, pre, post}
use page_table_multiarch.Table64.Walk.{walk_entries, walk_recursive}

-- The indices with which `pre_func` is called at a level, in the order of the calls.
abbrev pub pre_indices : (level : ℕ) → List Visit → List ℕ
pre_indices l [] = []
pre_indices l (pre m i v w ∷ calls) =
    if l == m then i ∷ pre_indices l calls else pre_indices l calls
pre_indices l (post m i v w ∷ calls) = pre_indices l calls

abbrev pub take : ℕ → List ℕ → List ℕ
take zero xs = []
take (suc n) [] = []
take (suc n) (x ∷ xs) = x ∷ take n xs

pre_indices-append :
    (l : ℕ) (xs ys : List Visit) → pre_indices l (xs ++ ys) ≡ pre_indices l xs ++ pre_indices l ys
pre_indices-append l [] ys = refl
pre_indices-append l (pre m i v w ∷ xs) ys = elim (Bool-cases (l == m)) [
  | inl here ↦ rw here (ap (λ js. i ∷ js) (pre_indices-append l xs ys))
  | inr there ↦ rw there (pre_indices-append l xs ys)
]
pre_indices-append l (post m i v w ∷ xs) ys = pre_indices-append l xs ys

-- Calls that have no index at a level add none.
none-append :
    (l : ℕ) (xs ys : List Visit)
    → pre_indices l xs ≡ []
    → pre_indices l (xs ++ ys) ≡ pre_indices l ys
none-append l xs ys none_first =
    pre_indices-append l xs ys ∙ ap (λ js. js ++ pre_indices l ys) none_first

module _ {S V B : Type 0} (e : Platform S V B) (w : World S) where
  -- The indices of the present entries of a table, from `i` on.
  abbrev pub present_indices : (table left i : ℕ) → List ℕ
  present_indices table zero i = []
  present_indices table (suc left) i =
      let rest = present_indices table left (i + 1) in
      if e.pte.is_present (w.mem table i) then i ∷ rest else rest

  module _ (limit : ℕ) (post_func : Bool) where
    module _ (l level table start : ℕ) (inner : ℕ → ℕ → List Visit)
        (none_below : (q v : ℕ) → pre_indices l (inner q v) ≡ []) where
      abbrev below : (vaddr : ℕ) → Bool → PagingResult ℕ → List Visit
      below vaddr b r = elim r [ ok next ↦ if b then inner next vaddr else [] | err _ ↦ [] ]

      below_none :
          (vaddr : ℕ) (b : Bool) (r : PagingResult ℕ) → pre_indices l (below vaddr b r) ≡ []
      below_none vaddr true (ok next) = none_below next vaddr
      below_none vaddr false (ok next) = refl
      below_none vaddr b (err x) = refl

      post_none :
          (i vaddr entry : ℕ) (b : Bool)
          → pre_indices l (if b then post level i vaddr entry ∷ [] else []) ≡ []
      post_none i vaddr entry true = refl
      post_none i vaddr entry false = refl

      -- what follows the call of `pre_func` at a present entry
      abbrev behind : (i vaddr entry : ℕ) → Bool → PagingResult ℕ → List Visit
      behind i vaddr entry b r =
          below vaddr b r ++ (if post_func then post level i vaddr entry ∷ [] else [])

      behind_none :
          (i vaddr entry : ℕ) (b : Bool) (r : PagingResult ℕ)
          → pre_indices l (behind i vaddr entry b r) ≡ []
      behind_none i vaddr entry b r =
          none-append l (below vaddr b r) (if post_func then post level i vaddr entry ∷ [] else [])
            (below_none vaddr b r)
          ∙ post_none i vaddr entry post_func

      abbrev behind_at : ℕ → List Visit
      behind_at i =
          behind i ((start + i * 2 ^ (12 + (e.meta.levels - 1 - level) * 9)) % 2 ^ 64)
            (w.mem table i) (ltb level (e.meta.levels - 1) && not (e.pte.is_huge (w.mem table i)))
            (next_table e (w.mem table i))

      behind_at_none :
          (i : ℕ) (ys : List Visit) → pre_indices l (behind_at i ++ ys) ≡ pre_indices l ys
      behind_at_none i ys =
          none-append l (behind_at i) ys
            (behind_none i _ (w.mem table i) _ (next_table e (w.mem table i)))

      abbrev entries : (left i n : ℕ) → List Visit
      entries left i n = walk_entries e inner w table level start limit true post_func left i n

      -- No call at another level.
      entries_none : (l == level) ≡ false → (left i n : ℕ) → pre_indices l (entries left i n) ≡ []
      unfolding walk_entries
      entries_none other zero i n = refl
      entries_none other (suc left) i n = elim (Bool-cases (e.pte.is_present (w.mem table i))) [
        | inr absent ↦ rw absent (entries_none other left (i + 1) n)
        | inl here ↦
            rw (here, other)
              (behind_at_none i (if leb limit (n + 1) then [] else entries left (i + 1) (n + 1))
                ∙ stop (entries left (i + 1) (n + 1)) (leb limit (n + 1))
                    (entries_none other left (i + 1) (n + 1)))
      ]
        where
          stop :
              (xs : List Visit) (b : Bool)
              → pre_indices l xs ≡ []
              → pre_indices l (if b then [] else xs) ≡ []
          stop xs true none_there = refl
          stop xs false none_there = none_there

      -- With `suc k` entries to go before the limit, the next ones that are present are visited.
      entries_lem :
          (l == level) ≡ true
          → (left i n k : ℕ) → max 1 limit ≡ n + suc k
          → pre_indices l (entries left i n) ≡ take (suc k) (present_indices table left i)
      unfolding walk_entries
      entries_lem own zero i n k room = refl
      entries_lem own (suc left) i n k room = elim (Bool-cases (e.pte.is_present (w.mem table i))) [
        | inr absent ↦ rw absent (entries_lem own left (i + 1) n k room)
        | inl here ↦
            rw (here, own)
              (ap (λ js. i ∷ js)
                (behind_at_none i (if leb limit (n + 1) then [] else entries left (i + 1) (n + 1))
                  ∙ onward left i n k room (entries_lem own left (i + 1) (n + 1))))
      ]
        where
          onward :
              (left i n k : ℕ)
              → max 1 limit ≡ n + suc k
              → ((k' : ℕ)
                  → max 1 limit ≡ n + 1 + suc k'
                  → pre_indices l (entries left (i + 1) (n + 1))
                    ≡ take (suc k') (present_indices table left (i + 1)))
              → pre_indices l (if leb limit (n + 1) then [] else entries left (i + 1) (n + 1))
                ≡ take k (present_indices table left (i + 1))
          onward left i n zero room rest = rw (reached n room) refl
            where
              reached : (n : ℕ) → max 1 limit ≡ n + 1 → leb limit (n + 1) ≡ true
              reached n room = ground arith
          onward left i n (suc k) room rest = rw (more n k room) (rest k (omega arith))
            where
              more : (n k : ℕ) → max 1 limit ≡ n + suc (suc k) → leb limit (n + 1) ≡ false
              more n k room = ground arith

    -- A walk of a table makes no call at a level above its own.
    deeper_none :
        (fuel l table level start : ℕ)
        → l < level
        → pre_indices l (walk_recursive e fuel w table level start limit true post_func) ≡ []
    unfolding walk_recursive
    deeper_none zero l table level start lt = refl
    deeper_none (suc fuel) l table level start lt =
        entries_none l level table start
          (λ next vaddr. walk_recursive e fuel w next (level + 1) vaddr limit true post_func)
          (λ q v. deeper_none fuel l q (level + 1) v (omega arith)) (ground arith) entry_count 0 0

    -- The walk of a table at a level, with a `pre_func`, calls it for the table's own entries just with the
    -- indices of its first present entries, in ascending order: as many as the limit says, or one if
    -- the limit is 0, or all present ones if there are fewer. The calls for the tables below are not
    -- counted.
    pub walk_recursive_limit :
        (fuel table level start : ℕ)
        → pre_indices level (walk_recursive e (suc fuel) w table level start limit true post_func)
          ≡ take (max 1 limit) (present_indices table entry_count 0)
    unfolding walk_recursive
    walk_recursive_limit fuel table level start =
        entries_lem level level table start
          (λ next vaddr. walk_recursive e fuel w next (level + 1) vaddr limit true post_func)
          (λ q v. deeper_none fuel level q (level + 1) v (omega arith)) (==_refl level) entry_count
          0 0 (max 1 limit - 1) (omega arith)
        ∙ ap (λ n. take n (present_indices table entry_count 0)) {x = suc (max 1 limit - 1)}
            (omega arith)
