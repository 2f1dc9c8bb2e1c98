-- ===== src/Entry/Laws.antt =====
-- The contract of `GenericPTE`, as the page tables rely on it and as each entry format meets it.
use page_table_multiarch.Common.{ℕ, ◌-◌, ◌*◌, ◌/◌, ◌%◌, ◌^◌, ◌<◌, ◌≡◌, Bool, true, false, ◌==◌}
use page_table_multiarch.Entry.{GenericPte}

-- The address field of an entry: bits 12 up to `width`.
abbrev pub frame_of : ℕ → ℕ → ℕ
frame_of width p = p / 2 ^ 12 % 2 ^ (width - 12) * 2 ^ 12

-- A 4K frame that the address field can hold, other than the frame at 0.
pub record IsFrame (width q : ℕ) : Type 0 where
  pub nonzero : 0 < q
  pub fits : frame_of width q ≡ q

-- `accepts` are the flags that make a present page; `seen` is what such flags read back as.
pub record IsLawful (pte : GenericPte) (width : ℕ) (accepts : ℕ → Bool) (seen : ℕ → ℕ)
    : Type 0 where
  pub is_unused_lem : (w : ℕ) → pte.is_unused w ≡ (w == 0)
  pub clear_lem : (w : ℕ) → pte.clear w ≡ 0
  pub paddr-zero : pte.paddr 0 ≡ 0
  pub is_present-zero : pte.is_present 0 ≡ false
  pub paddr-new_table : (q : ℕ) → pte.paddr (pte.new_table q) ≡ frame_of width q
  pub is_huge-new_table : (q : ℕ) → pte.is_huge (pte.new_table q) ≡ false
  pub paddr-new_page :
      (p f : ℕ) (h : Bool) → f < 64 → pte.paddr (pte.new_page p f h) ≡ frame_of width p
  pub flags-new_page :
      (p f : ℕ) (h : Bool) → f < 64 → accepts f ≡ true → pte.flags (pte.new_page p f h) ≡ seen f
  pub is_present-new_page :
      (p f : ℕ) (h : Bool) → f < 64 → accepts f ≡ true → pte.is_present (pte.new_page p f h) ≡ true
  pub is_huge-new_page :
      (p f : ℕ) → f < 64 → accepts f ≡ true → pte.is_huge (pte.new_page p f true) ≡ true
  pub paddr-set_paddr : (w p : ℕ) → pte.paddr (pte.set_paddr w p) ≡ frame_of width p
  pub flags-set_paddr : (w p : ℕ) → pte.flags (pte.set_paddr w p) ≡ pte.flags w
  pub is_present-set_paddr : (w p : ℕ) → pte.is_present (pte.set_paddr w p) ≡ pte.is_present w
  pub is_huge-set_paddr : (w p : ℕ) → pte.is_huge (pte.set_paddr w p) ≡ pte.is_huge w
  pub paddr-set_flags :
      (w f : ℕ) (h : Bool) → f < 64 → pte.paddr (pte.set_flags w f h) ≡ pte.paddr w
  pub flags-set_flags :
      (w f : ℕ) (h : Bool) → f < 64 → accepts f ≡ true → pte.flags (pte.set_flags w f h) ≡ seen f
  pub is_present-set_flags :
      (w f : ℕ) (h : Bool) → f < 64 → accepts f ≡ true → pte.is_present (pte.set_flags w f h) ≡ true
  pub is_huge-set_flags :
      (w f : ℕ) → f < 64 → accepts f ≡ true → pte.is_huge (pte.set_flags w f true) ≡ true

-- What the two-level tables of bits32.rs need of 32-bit entries. Pages are of 4K or of 1M (huge).
-- `exact p f h` says that a page on the frame `p` with the flags `f` gives its frame back, `shown h`
-- that it gives its flags back.
pub record IsShort (pte : GenericPte) (accepts : ℕ → Bool) (exact : ℕ → ℕ → Bool → Bool)
    (shown : Bool → Bool) (seen : ℕ → ℕ) : Type 0 where
  pub is_unused_lem : (w : ℕ) → pte.is_unused w ≡ (w == 0)
  pub clear_lem : (w : ℕ) → pte.clear w ≡ 0
  pub is_unused-new_table : (q : ℕ) → pte.is_unused (pte.new_table q) ≡ false
  pub is_huge-new_table : (q : ℕ) → pte.is_huge (pte.new_table q) ≡ false
  pub paddr-new_table : (q : ℕ) → q % 2 ^ 12 ≡ 0 → q < 2 ^ 32 → pte.paddr (pte.new_table q) ≡ q
  pub is_unused-new_page :
      (p f : ℕ) (h : Bool) → f < 64 → accepts f ≡ true → pte.is_unused (pte.new_page p f h) ≡ false
  pub is_huge-new_page :
      (p f : ℕ) → f < 64 → accepts f ≡ true → pte.is_huge (pte.new_page p f true) ≡ true
  pub paddr-new_page :
      (p f : ℕ) (h : Bool)
      → f < 64
      → accepts f ≡ true
      → exact p f h ≡ true
      → pte.paddr (pte.new_page p f h) ≡ p
  pub flags-new_page :
      (p f : ℕ) (h : Bool)
      → f < 64
      → accepts f ≡ true
      → shown h ≡ true
      → pte.flags (pte.new_page p f h) ≡ seen f
  pub set_flags_lem : (w f : ℕ) (h : Bool) → pte.set_flags w f h ≡ pte.new_page (pte.paddr w) f h
