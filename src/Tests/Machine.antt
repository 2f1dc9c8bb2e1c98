-- ===== src/Tests/Machine.antt =====
-- A concrete platform: x86 entries, four levels, and a hundred frames that are handed out in order.
use page_table_multiarch.Common.{
  ℕ, suc, ◌+◌, ◌-◌, ◌*◌, ◌/◌, ◌%◌, refl, inr, Bool, false, ◌&&◌, Option, none, some, List, [], ◌∷◌,
  ◌++◌, length, ◌==◌, ltb, if◌then◌else◌, arith,
}
use page_table_multiarch.Crates.{IsBitwise, MemoryAddr, IsAlignment, ArrayVec, IsBounded}
use page_table_multiarch.Entry.Words.{documented}
use page_table_multiarch.Entry.X64.{x64_pte}
use page_table_multiarch.Entry.X64.Laws.{documented_ptf, accepts, seen, x64_pte-IsLawful}
use page_table_multiarch.Paging.{PagingHandler, Platform, TlbFlusher, default_vaddr_is_valid}
use page_table_multiarch.Paging.Contract.{IsAllocator, IsPlatform}
use page_table_multiarch.Table64.Cursor.{Session}
use page_table_multiarch.Table64.Mapped.{IsSession}
use page_table_multiarch.Table64.New.{at_root, zeroed-IsTable}

pub documented-IsBitwise : IsBitwise documented
documented-IsBitwise = record {
  contains_lem = λ x y. refl;
  intersects_lem = λ x y. refl;
  union_lem = λ x y. refl;
  truncate_lem = λ all x. refl;
  is_empty_lem = λ x. refl;
}

abbrev pub addresses : MemoryAddr
addresses = record {
  is_aligned = λ a n. a % n == 0;
  align_offset = λ a n. a % n;
  align_down = λ a n. a - a % n;
  add = λ a b. a + b;
}

pub addresses-IsAlignment : (bits : ℕ) → IsAlignment bits addresses
addresses-IsAlignment bits = record {
  is_aligned_lem = λ a k. refl;
  align_offset_lem = λ a k. refl;
  align_down_lem = λ a k. refl;
  add_lem = λ a b small. refl;
}

abbrev pub append_below : List ℕ → ℕ → Option (List ℕ)
append_below v x = if ltb (length v) 32 then some (v ++ x ∷ []) else none

abbrev pub addresses_vec : ArrayVec (List ℕ)
addresses_vec = record { new = []; push = append_below; try_push = append_below; iter = λ v. v }

pub addresses_vec-IsBounded : IsBounded 32 addresses_vec
addresses_vec-IsBounded = record {
  iter-new = refl;
  push_room = λ v x room. (v ++ x ∷ [], ground arith, refl);
  try_push_room = λ v x room. (v ++ x ∷ [], ground arith, refl);
  try_push_full = λ v x full. ground arith;
}

-- frames 1 to 99, and the number of the next one
abbrev pub frames : PagingHandler ℕ
frames = record {
  alloc_frame = λ n. if ltb 0 n && ltb n 100 then (some (n * 4096), suc n) else (none, n);
  alloc_frames = λ num align n. (none, n);
  dealloc_frame = λ p n. n;
  dealloc_frames = λ p num n. n;
}

abbrev pub live : ℕ → ℕ → Bool
live n p = p % 4096 == 0 && ltb (p / 4096) n

pub frames-IsAllocator : IsAllocator 52 frames live
frames-IsAllocator = record {
  alloc_frame_is_frame = λ n q got. record { nonzero = ground arith; fits = ground arith };
  alloc_frame_was_free = λ n q got. ground arith;
  alloc_frame_live = λ n q p got. ground arith;
  alloc_frame_failed = λ n p failed. ground arith;
}

abbrev pub machine : Platform ℕ (List ℕ) (ℕ → Bool)
machine = record {
  meta = record {
    levels = 4;
    pa_max_bits = 52;
    va_max_bits = 48;
    vaddr_is_valid = default_vaddr_is_valid 48;
  };
  pte = x64_pte documented documented_ptf;
  handler = frames;
  addr = addresses;
  vec = addresses_vec;
  bitmap = record {
    new = λ i. false;
    get = λ b i. b i;
    set = λ b i x. (b i, λ j. if i == j then x else b j);
  };
}

unfoldable pub machine-IsPlatform : IsPlatform machine
machine-IsPlatform = record {
  width = 52;
  accepts = accepts;
  seen = seen;
  live = live;
  levels = inr refl;
  lawful = x64_pte-IsLawful documented documented_ptf documented-IsBitwise refl;
  allocator = frames-IsAllocator;
  alignment = addresses-IsAlignment 64;
  bounded = addresses_vec-IsBounded;
}

-- The root at frame 1, nothing mapped.
abbrev pub start : Session ℕ (List ℕ) (ℕ → Bool)
start = record {
  cursor = record {
    inner = record { root_paddr = 4096; borrowed_entries = λ i. false };
    flusher = TlbFlusher.idle;
  };
  world = record { mem = λ p i. 0; os = 2; tlb = [] };
}

pub start-IsSession : IsSession machine-IsPlatform (at_root machine-IsPlatform 4096) start
unfolding machine-IsPlatform
start-IsSession = zeroed-IsTable machine-IsPlatform start.world 4096 (λ i. refl) refl
