-- ===== src/Table32/Tiled.antt =====
-- Regions that whole pages tile, and loops over them.
use mathlib.Core.Path.{subst}
use page_table_multiarch.Common.{
  ℕ, ◌+◌, ◌-◌, ◌%◌, ◌^◌, ◌≤◌, ◌<◌, ◌≡◌, refl, sym, ◌∙◌, inl, inr, Bool, true, Option, some, none,
  Bool-cases, arith,
}
use page_table_multiarch.Paging.{PageSize, size_4k, size_1m, size_2m, size_1g, size_of, Platform}
use page_table_multiarch.Table32.Contract.{IsPlatform}
use page_table_multiarch.Table32.Placed.{
  page, answer-used, answer-unused, answer-place, section, first-page, both-page,
}
use page_table_multiarch.Table32.Written.{shared}
use page_table_multiarch.Table32.Found.{Found, missing, place, found-Found}
use page_table_multiarch.Table32.Session.{root_of, answers}
use page_table_multiarch.Table32.Mapped.{IsSize, is_4k, is_1m}
use page_table_multiarch.Table32.Choose.{next_room}
use page_table_multiarch.Table32.Cursor.{Session}

pub size_of-le : (size : PageSize) → 0x1000 ≤ size_of size
size_of-le size_4k = omega arith
size_of-le size_1m = omega arith
size_of-le size_2m = omega arith
size_of-le size_1g = omega arith

module _ {S V B : Type 0} {e : Platform S V B} (a : IsPlatform e) where
  -- From `v` on, pages lie one behind the other up to the end of the region, with holes of 4K
  -- between them where `holes` is set.
  pub data Tiles (s : Session S V) (holes : Bool) : (v size : ℕ) → Type 0 where
    tiles_end : {v : ℕ} → Tiles s holes v 0
    tiles_page :
        {v size word : ℕ} {chosen : PageSize}
        → IsSize chosen
        → answers a s v ≡ some (word, chosen)
        → v % size_of chosen ≡ 0
        → size_of chosen ≤ size
        → Tiles s holes ((v + size_of chosen) % 2 ^ 32) (size - size_of chosen)
        → Tiles s holes v size
    tiles_hole :
        {v size : ℕ}
        → holes ≡ true
        → answers a s v ≡ none
        → v % 0x1000 ≡ 0
        → 0x1000 ≤ size
        → Tiles s holes ((v + 0x1000) % 2 ^ 32) (size - 0x1000)
        → Tiles s holes v size

  -- The tiles of a region rest on its answers alone.
  pub Tiles-agree :
      {s : Session S V} {holes : Bool} {v size : ℕ} (s' : Session S V)
      → v < 2 ^ 32
      → v + size ≤ 2 ^ 32
      → ((u : ℕ) → u < 2 ^ 32 → v ≤ u → u < v + size → answers a s' u ≡ answers a s u)
      → Tiles s holes v size
      → Tiles s' holes v size
  Tiles-agree s' start room same tiles_end = tiles_end
  Tiles-agree s' start room same
        (tiles_page {v} {size} {word} {chosen} kind here aligned fits rest) =
      tiles_page kind (same v start (omega arith) (inside chosen kind) ∙ here) aligned fits (
        Tiles-agree s' (omega arith) (next_room v size (size_of chosen) fits room)
          (λ u small low high. same u small (lower u low high) (omega arith)) rest)
    where
      inside : (p : PageSize) → IsSize p → v < v + size
      inside p k = let some_size = size_of-le chosen in omega (arith, some_size)

      lower :
          (u : ℕ)
          → (v + size_of chosen) % 2 ^ 32 ≤ u
          → u < (v + size_of chosen) % 2 ^ 32 + (size - size_of chosen)
          → v ≤ u
      lower u low high = omega arith
  Tiles-agree s' start room same (tiles_hole {v} {size} may here aligned fits rest) =
      tiles_hole may (same v start (omega arith) (omega arith) ∙ here) aligned fits (
        Tiles-agree s' (omega arith) (next_room v size 0x1000 fits room)
          (λ u small low high. same u small (omega arith) (omega arith)) rest)

  -- All addresses of a page are answered alike.
  pub answers-page :
      (s : Session S V) (u v : ℕ) {word : ℕ} {size : PageSize}
      → answers a s v ≡ some (word, size)
      → page size u ≡ page size v
      → answers a s u ≡ answers a s v
  answers-page s u v {word} {size} here same =
      from refl (found-Found a s.memory.words (root_of s) v)
    where
      size_of_page : {x y : ℕ × PageSize} → some x ≡ some y → x.1 ≡ y.1
      size_of_page eq = cc

      no_page : {x : ℕ × PageSize} → none ≡ some x → ⊥
      no_page eq = cc

      from :
          {o : Option (ℕ × PageSize)}
          → o ≡ o
          → Found a s.memory.words (root_of s) v o
          → answers a s u ≡ answers a s v
      from eq (missing unused) =
          absurd (no_page (sym (answer-unused a (root_of s) (section (inl unused)) unused) ∙ here))
      from eq (place {p} {size = z} kind at section_used) =
          elim (Bool-cases (e.pte.is_unused (s.memory.words p))) [
            | inl unused ↦ absurd (no_page (sym (answer-unused a (root_of s) at unused) ∙ here))
            | inr used ↦
                let z_size = size_of_page (sym (answer-used a (root_of s) at used) ∙ here) in
                let in_page = subst (λ z. page z u ≡ page z v) (sym z_size) same in
                answer-place a (root_of s) (shared a (root_of s) u at in_page)
                ∙ sym (answer-place a (root_of s) at)
          ]

  -- A 4K hole is not mapped at any of its addresses.
  pub answers-hole :
      (s : Session S V) (u v : ℕ)
      → answers a s v ≡ none
      → page size_4k u ≡ page size_4k v
      → answers a s u ≡ none
  answers-hole s u v here same = from (found-Found a s.memory.words (root_of s) v)
    where
      no_page : {x : ℕ × PageSize} → some x ≡ none → ⊥
      no_page eq = cc

      wider : {size : PageSize} → IsSize size → page size u ≡ page size v
      wider is_4k = same
      wider is_1m = (first-page u v).1 ((both-page u v).0 same).0

      from :
          {o : Option (ℕ × PageSize)}
          → Found a s.memory.words (root_of s) v o
          → answers a s u ≡ none
      from (missing unused) =
          answer-unused a (root_of s)
            (shared a (root_of s) u (section (inl unused))
              ((first-page u v).1 ((both-page u v).0 same).0))
            unused
      from (place {p} kind at section_used) =
          elim (Bool-cases (e.pte.is_unused (s.memory.words p))) [
            | inl unused ↦
                answer-unused a (root_of s) (shared a (root_of s) u at (wider kind)) unused
            | inr used ↦ absurd (no_page (sym (answer-used a (root_of s) at used) ∙ here))
          ]
