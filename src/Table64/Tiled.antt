-- ===== src/Table64/Tiled.antt =====
-- Regions that pages tile without a rest.
use page_table_multiarch.Common.{
  ℕ, zero, suc, ◌+◌, ◌-◌, ◌%◌, ◌≤◌, ◌<◌, ◌≡◌, ◌⊎◌, refl, ◌∙◌, true, arith,
}
use page_table_multiarch.Paging.{ok, size_of, Platform}
use page_table_multiarch.Paging.Contract.{IsPlatform}
use page_table_multiarch.Table64.Height.{size_at}
use page_table_multiarch.Table64.Placed.{Placement}
use page_table_multiarch.Table64.Flush.{asked}
use page_table_multiarch.Table64.Pages.{space}
use page_table_multiarch.Table64.Mapped.{IsSession, answers}
use page_table_multiarch.Table64.Cursor.{Session}

abbrev pub bytes_at : ℕ → ℕ
bytes_at h = size_of (size_at h)

module _ {S V B : Type 0} {e : Platform S V B} (a : IsPlatform e) where
  -- The region is a row of whole mapped pages.
  pub data Tiled (s : Session S V B) : (vaddr size : ℕ) → Type 0 where
    no_more : {v : ℕ} → Tiled s v 0
    tile :
        {v size : ℕ} (h word : ℕ)
        → h ≤ 2
        → v % bytes_at h ≡ 0
        → bytes_at h ≤ size
        → answers a s v ≡ ok (word, size_at h)
        → Tiled s (v + bytes_at h) (size - bytes_at h)
        → Tiled s v size

  pub bytes_at-positive : (h : ℕ) → h ≤ 2 → (0x1000 ≤ bytes_at h) × (bytes_at h % 0x1000 ≡ 0)
  bytes_at-positive zero low = (omega arith, refl)
  bytes_at-positive (suc zero) low = (omega arith, refl)
  bytes_at-positive (suc (suc zero)) low = (omega arith, refl)
  bytes_at-positive (suc (suc (suc h))) low = absurd (omega arith)

  -- Only what the region's addresses are answered counts.
  pub Tiled-same :
      {s s' : Session S V B} {v size : ℕ}
      → ((u : ℕ) → v ≤ u → u < v + size → answers a s' u ≡ answers a s u)
      → Tiled s v size
      → Tiled s' v size
  Tiled-same same no_more = no_more
  Tiled-same {v} {size} same (tile h word low aligned fits here rest) =
      let positive = bytes_at-positive h low in
      tile h word low aligned fits (same v (omega arith) (omega (arith, positive.0, fits)) ∙ here)
        (Tiled-same (λ u from to. same u (omega arith) (omega (arith, fits))) rest)

  -- What an operation on a region keeps: a well-formed table on the same root, the answers of the
  -- other addresses, and what was to be flushed.
  pub record Keeps (s s' : Session S V B) (v size : ℕ) : Type 0 where
    pub place : Placement
    pub session : IsSession a place s'
    pub same_table : s'.cursor.inner ≡ s.cursor.inner
    pub outside :
        (u : ℕ)
        → u < space e.meta.levels
        → (u < v) ⊎ (v + size ≤ u)
        → answers a s' u ≡ answers a s u
    pub asks_old :
        (u : ℕ)
        → asked e a.bounded s.cursor.flusher u ≡ true
        → asked e a.bounded s'.cursor.flusher u ≡ true
