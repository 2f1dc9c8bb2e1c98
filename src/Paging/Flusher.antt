-- ===== src/Paging/Flusher.antt =====
-- `TlbFlusher` of page_table_multiarch/src/lib.rs, as the cursors of bits64.rs and bits32.rs use
-- it in `push` and `flush`: the two matches are the same in both files.
use mathlib.Core.List
use page_table_multiarch.Common.{
  ℕ, ◌≡◌, refl, Bool, true, false, ◌||◌, Option, none, some, List, [], ◌∷◌, ◌++◌, length, ◌==◌,
  ==_refl, arith,
}
use native.Mathlib.Decide.{dec_lt}
use page_table_multiarch.Crates.{ArrayVec, IsBounded}
use page_table_multiarch.Paging.{TlbFlusher, idle, array, full, small_flush_threshold}

module _ {V : Type 0} (vec : ArrayVec V) where
  -- The match of `push`: `arr.push(vaddr)` on a new vector, which panics (`none`) without room, and
  -- `arr.try_push(vaddr)`.
  abbrev pub pushed : TlbFlusher V → ℕ → Option (TlbFlusher V)
  pushed idle vaddr = elim (vec.push vec.new vaddr) [ none ↦ none | some arr ↦ some (array arr) ]
  pushed (array arr) vaddr = elim (vec.try_push arr vaddr) [
    | none ↦ some full
    | some arr' ↦ some (array arr')
  ]
  pushed full vaddr = some full

  -- The match of `flush`: the calls of `flush_tlb` that a flusher asks for.
  abbrev pub requests : TlbFlusher V → List (Option ℕ)
  requests idle = []
  requests (array addrs) = List.map some (vec.iter addrs)
  requests full = none ∷ []

-- Does a list of calls of `flush_tlb` flush the address?
abbrev pub flushes : List (Option ℕ) → ℕ → Bool
flushes [] u = false
flushes (none ∷ calls) u = true
flushes (some x ∷ calls) u = (x == u) || flushes calls u

pub flushes-append :
    (xs ys : List (Option ℕ)) (u : ℕ) → flushes (xs ++ ys) u ≡ (flushes xs u || flushes ys u)
flushes-append [] ys u = refl
flushes-append (none ∷ xs) ys u = refl
flushes-append (some x ∷ xs) ys u = ground (arith, flushes-append xs ys u)

pub or_true : (b : Bool) → (b || true) ≡ true
or_true true = refl
or_true false = refl

-- Calls made later flush what they flush on their own.
pub flushes-later :
    (xs ys : List (Option ℕ)) (u : ℕ) → flushes ys u ≡ true → flushes (xs ++ ys) u ≡ true
flushes-later xs ys u h = rw (flushes-append, h) (or_true (flushes xs u))

flushes-snoc :
    (xs : List ℕ) (x u : ℕ)
    → flushes (List.map some (xs ++ x ∷ [])) u ≡ (flushes (List.map some xs) u || (x == u))
flushes-snoc [] x u = ground arith
flushes-snoc (y ∷ xs) x u = ground (arith, flushes-snoc xs x u)

module _ {V : Type 0} (vec : ArrayVec V) where
  abbrev pub asks : TlbFlusher V → ℕ → Bool
  asks f u = flushes (requests vec f) u

  -- A push ends well, in a flusher that asks for the address and for all that was asked before.
  pub record Pushed (f : TlbFlusher V) (vaddr : ℕ) : Type 0 where
    pub after : TlbFlusher V
    pub ends : pushed vec f vaddr ≡ some after
    pub new : asks after vaddr ≡ true
    pub old : (u : ℕ) → asks f u ≡ true → asks after u ≡ true

  pub pushed-Pushed :
      IsBounded small_flush_threshold vec → (f : TlbFlusher V) (vaddr : ℕ) → Pushed f vaddr
  pushed-Pushed bounded full vaddr = record {
    after = full;
    ends = refl;
    new = refl;
    old = λ u h. h;
  }
  pushed-Pushed bounded idle vaddr =
      let (arr, pushes, items) =
        bounded.push_room vec.new vaddr (rw bounded.iter-new (omega arith)) in
      record {
        after = array arr;
        ends = rw (pushes, pushed);
        new = rw (items, bounded.iter-new) (ground (arith, ==_refl vaddr));
        old = λ u h. cc;
      }
  pushed-Pushed bounded (array arr) vaddr =
      elim (dec_lt (length (vec.iter arr)) small_flush_threshold) [
        | yes room ↦
            let (arr', pushes, items) = bounded.try_push_room arr vaddr room in
            record {
              after = array arr';
              ends = rw (pushes, pushed);
              new = rw (items, flushes-snoc) (ground (arith, ==_refl vaddr));
              old = λ u h. rw (items, flushes-snoc, h);
            }
        | no crowded ↦ record {
          after = full;
          ends = rw (bounded.try_push_full arr vaddr (omega arith), pushed);
          new = refl;
          old = λ u h. refl;
        }
      ]
