-- ===== src/Crates.antt =====
-- The third-party crates that the sources call: bitflags, memory_addr, arrayvec and bitmaps. Each
-- is a record of the operations used, a parameter of the model; a second record states what the
-- crate documents of them. A flags value, an address and a bitmap index are native numbers, so
-- `bits()`, `from_bits_retain`, `into()` and `as_usize()` change nothing and are left out.
use page_table_multiarch.Common.{
  ℕ, ◌+◌, ◌-◌, ◌%◌, ◌^◌, ◌≤◌, ◌<◌, bit_and, bit_or, ◌≡◌, Bool, false, not, Option, none, some, List,
  [], ◌∷◌, ◌++◌, length, ◌==◌, if◌then◌else◌,
}

-- `bitflags`: the operations of a generated flags type. `all` is the union of its constants.
pub record Bitflags : Type 0 where
  pub contains : (self other : ℕ) → Bool
  pub intersects : (self other : ℕ) → Bool
  pub union : (self other : ℕ) → ℕ
  pub from_bits_truncate : (all bits : ℕ) → ℕ
  pub is_empty : (self : ℕ) → Bool

pub record IsBitwise (b : Bitflags) : Type 0 where
  pub contains_lem : (x y : ℕ) → b.contains x y ≡ (bit_and x y == y)
  pub intersects_lem : (x y : ℕ) → b.intersects x y ≡ not (bit_and x y == 0)
  pub union_lem : (x y : ℕ) → b.union x y ≡ bit_or x y
  pub truncate_lem : (all x : ℕ) → b.from_bits_truncate all x ≡ bit_and x all
  pub is_empty_lem : (x : ℕ) → b.is_empty x ≡ (x == 0)

-- `memory_addr`. An alignment is a power of two, an address has `bits` bits.
pub record MemoryAddr : Type 0 where
  pub is_aligned : (addr align : ℕ) → Bool
  pub align_offset : (addr align : ℕ) → ℕ
  pub align_down : (addr align : ℕ) → ℕ
  pub add : (addr offset : ℕ) → ℕ

pub record IsAlignment (bits : ℕ) (m : MemoryAddr) : Type 0 where
  pub is_aligned_lem : (a k : ℕ) → m.is_aligned a (2 ^ k) ≡ (a % 2 ^ k == 0)
  pub align_offset_lem : (a k : ℕ) → m.align_offset a (2 ^ k) ≡ a % 2 ^ k
  pub align_down_lem : (a k : ℕ) → m.align_down a (2 ^ k) ≡ a - a % 2 ^ k
  pub add_lem : (a b : ℕ) → a + b < 2 ^ bits → m.add a b ≡ a + b

-- `ArrayVec<VirtAddr, CAP>`. `push` panics (`none`) and `try_push` fails where the vector is full.
pub record ArrayVec (V : Type 0) : Type 0 where
  pub new : V
  pub push : V → ℕ → Option V
  pub try_push : V → ℕ → Option V
  pub iter : V → List ℕ

pub record IsBounded {V : Type 0} (cap : ℕ) (a : ArrayVec V) : Type 0 where
  pub iter-new : a.iter a.new ≡ []
  pub push_room :
      (v : V) (x : ℕ)
      → length (a.iter v) < cap
      → (v' : V) × (a.push v x ≡ some v') × (a.iter v' ≡ a.iter v ++ x ∷ [])
  pub try_push_room :
      (v : V) (x : ℕ)
      → length (a.iter v) < cap
      → (v' : V) × (a.try_push v x ≡ some v') × (a.iter v' ≡ a.iter v ++ x ∷ [])
  pub try_push_full : (v : V) (x : ℕ) → cap ≤ length (a.iter v) → a.try_push v x ≡ none

-- `Bitmap<512>`. `set` also gives the bit that stood there.
pub record Bitmap (B : Type 0) : Type 0 where
  pub new : B
  pub get : B → ℕ → Bool
  pub set : B → ℕ → Bool → Bool × B

pub record IsBitmap {B : Type 0} (m : Bitmap B) : Type 0 where
  pub get-new : (i : ℕ) → m.get m.new i ≡ false
  pub set_old : (b : B) (i : ℕ) (x : Bool) → (m.set b i x).0 ≡ m.get b i
  pub get-set :
      (b : B) (i j : ℕ) (x : Bool) → m.get (m.set b i x).1 j ≡ (if i == j then x else m.get b j)
