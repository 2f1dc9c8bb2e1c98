-- ===== src/Tests/Machine32.antt =====
-- A concrete two-level platform: ARMv7-A entries, and a hundred frames that are handed out in order.
use page_table_multiarch.Common.{
  ℕ, suc, ◌+◌, ◌*◌, ◌/◌, ◌%◌, refl, Bool, false, ◌&&◌, none, some, List, [], ltb, if◌then◌else◌,
  arith, ◌==◌,
}
use page_table_multiarch.Entry.Words.{documented}
use page_table_multiarch.Entry.A32.{a32_pte}
use page_table_multiarch.Entry.A32.Laws.{accepts, exact, shown, seen, a32_pte-IsShort}
use page_table_multiarch.Paging.{PagingHandler, Platform, TlbFlusher}
use page_table_multiarch.Paging.Arch.{a32_meta}
use page_table_multiarch.Paging.Contract.{IsAllocator}
use page_table_multiarch.Table32.Contract.{IsBlockAllocator, IsPlatform}
use page_table_multiarch.Table32.Cursor.{Session}
use page_table_multiarch.Table32.Session.{IsSession}
use page_table_multiarch.Table32.New.{no_owner, zeroed-IsTable}
use page_table_multiarch.Tests.Machine.{
  documented-IsBitwise, addresses, addresses-IsAlignment, addresses_vec, addresses_vec-IsBounded,
}

-- the number of the next frame that starts a block of four
abbrev block : ℕ → ℕ
block n = (n + 3) / 4 * 4

abbrev pub frames32 : PagingHandler ℕ
frames32 = record {
  alloc_frame = λ n. if ltb 0 n && ltb n 100 then (some (n * 4096), suc n) else (none, n);
  alloc_frames =
      λ num align n. if ltb (block n) 96 then (some (block n * 4096), block n + 4) else (none, n);
  dealloc_frame = λ p n. n;
  dealloc_frames = λ p num n. n;
}

abbrev pub live32 : ℕ → ℕ → Bool
live32 n p = p % 4096 == 0 && ltb (p / 4096) n

pub frames32-IsAllocator : IsAllocator 32 frames32 live32
frames32-IsAllocator = record {
  alloc_frame_is_frame = λ n q got. record { nonzero = ground arith; fits = ground arith };
  alloc_frame_was_free = λ n q got. ground arith;
  alloc_frame_live = λ n q p got. ground arith;
  alloc_frame_failed = λ n p failed. ground arith;
}

pub frames32-IsBlockAllocator : IsBlockAllocator frames32 live32
frames32-IsBlockAllocator = record {
  alloc_frames_aligned = λ n q got. ground arith;
  alloc_frames_live = λ n q k got small. ground arith;
}

abbrev pub machine32 : Platform ℕ (List ℕ) (ℕ → Bool)
machine32 = record {
  meta = a32_meta;
  pte = a32_pte documented;
  handler = frames32;
  addr = addresses;
  vec = addresses_vec;
  bitmap = record {
    new = λ i. false;
    get = λ b i. b i;
    set = λ b i x. (b i, λ j. if i == j then x else b j);
  };
}

unfoldable pub machine32-IsPlatform : IsPlatform machine32
machine32-IsPlatform = record {
  accepts = accepts;
  exact = exact;
  shown = shown;
  seen = seen;
  live = live32;
  lawful = a32_pte-IsShort documented documented-IsBitwise;
  allocator = frames32-IsAllocator;
  blocks = frames32-IsBlockAllocator;
  alignment = addresses-IsAlignment 32;
  bounded = addresses_vec-IsBounded;
}

-- The root in the frames 4 to 7, nothing mapped.
abbrev pub start32 : Session ℕ (List ℕ)
start32 = record {
  cursor = record {
    inner = record { root_paddr = 16384; borrowed_entries = λ i. 0 };
    flusher = TlbFlusher.idle;
  };
  memory = record { words = λ p. 0; os = 8; tlb = [] };
}

pub start32-IsSession : IsSession machine32-IsPlatform no_owner start32
unfolding machine32-IsPlatform
start32-IsSession =
    zeroed-IsTable machine32-IsPlatform start32.memory 16384 refl (λ k small. ground arith)
      (λ i small. refl)
