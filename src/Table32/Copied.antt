-- ===== src/Table32/Copied.antt =====
-- The loop of `copy_from` on two-level tables: which words it writes.
use mathlib.Core.Path.{subst}
use page_table_multiarch.Common.{
  ℕ, zero, suc, ◌+◌, ◌≤◌, ◌<◌, ◌≡◌, ◌≢◌, refl, sym, ap, ◌∙◌, inl, inr, false, not, ◌&&◌, ◌==◌,
  ==_iff, Bool-cases, arith,
}
use page_table_multiarch.Paging.{ok, Platform}
use page_table_multiarch.Paging.Run.{done}
use page_table_multiarch.Table32.Defs.{entry_at, entry_count, store}
use page_table_multiarch.Table32.Contract.{IsPlatform}
use page_table_multiarch.Table32.Placed.{store_here, store_else}
use page_table_multiarch.Table32.Session.{root_of}
use page_table_multiarch.Table32.Cursor.{Session}
use page_table_multiarch.Table32.Release.{is_borrowed, set_borrowed, copy_entry, copy_entries}

-- Two roots whose entries lie apart.
abbrev pub Apart : (src dst : ℕ) → Type 0
Apart src dst = (j k : ℕ) → j < entry_count → k < entry_count → entry_at src j ≢ entry_at dst k

module _ {S V B : Type 0} {e : Platform S V B} (a : IsPlatform e) where
  open e use {pte}

  -- The entries of the root `dst` from `i` on are those of `src`, and no other word has changed.
  pub record Copied (src dst i left : ℕ) (s s' : Session S V) : Type 0 where
    pub same_root : root_of s' ≡ root_of s
    pub copied :
        (j : ℕ)
        → i ≤ j
        → j < i + left
        → s'.memory.words (entry_at dst j) ≡ s.memory.words (entry_at src j)
    pub kept :
        (p : ℕ)
        → ((j : ℕ) → i ≤ j → j < i + left → p ≢ entry_at dst j)
        → s'.memory.words p ≡ s.memory.words p

  -- A round ends well; `t` is the session but for its memory's words.
  record Round (src dst i : ℕ) (s : Session S V) : Type 0 where
    after : Session S V
    ends : copy_entry e src dst i s ≡ done (ok tt) after
    same_root : root_of after ≡ root_of s
    stores :
        after.memory.words ≡ store s.memory.words (entry_at dst i) (s.memory.words (entry_at src i))

  -- the session with the entry copied
  abbrev with_copy : (src dst i : ℕ) → Session S V → Session S V
  with_copy src dst i s = record s {
    memory = record s.memory {
      words = store s.memory.words (entry_at dst i) (s.memory.words (entry_at src i));
    };
  }

  -- the session with the L2 table of the entry released
  abbrev with_release : (dst i : ℕ) → Session S V → Session S V
  with_release dst i s = record s {
    memory = record s.memory {
      os = e.handler.dealloc_frame (pte.paddr (s.memory.words (entry_at dst i))) s.memory.os;
    };
  }

  copy_entry-Round : (src dst i : ℕ) (s : Session S V) → Round src dst i s
  unfolding copy_entry
  copy_entry-Round src dst i s = elim (Bool-cases (is_borrowed s.cursor.inner.borrowed_entries i)) [
    | inl borrowed ↦ record {
      after = with_copy src dst i s;
      ends = rw borrowed refl;
      same_root = refl;
      stores = refl;
    }
    | inr own ↦
        elim (Bool-cases (
          not (pte.is_unused (s.memory.words (entry_at dst i)))
          && not (pte.is_huge (s.memory.words (entry_at dst i))))) [
            | inl link ↦ record {
              after = with_copy src dst i (with_release dst i (set_borrowed e i s));
              ends = rw (own, link) refl;
              same_root = refl;
              stores = refl;
            }
            | inr leaf ↦ record {
              after = with_copy src dst i (set_borrowed e i s);
              ends = rw (own, leaf) refl;
              same_root = refl;
              stores = refl;
            }
          ]
  ]

  Copied-step :
      {src dst i left : ℕ} {s s' : Session S V} (one : Round src dst i s)
      → Apart src dst
      → i + suc left ≤ entry_count
      → Copied src dst (i + 1) left one.after s'
      → Copied src dst i (suc left) s s'
  Copied-step {src} {dst} {i} {left} {s} {s'} one apart room rest = record {
    same_root = rest.same_root ∙ one.same_root;
    copied = λ j low high. elim (Bool-cases (j == i)) [
      | inl here ↦
          subst (λ j. s'.memory.words (entry_at dst j) ≡ s.memory.words (entry_at src j))
            (sym ((==_iff j i).0 here)) copied_here
      | inr later ↦
          rest.copied j (after_first j low later) (omega arith)
          ∙ stored (entry_at src j) (apart j i (omega arith) (omega arith))
    ];
    kept = λ p differs.
        rest.kept p (λ j low high. differs j (omega arith) (omega arith))
        ∙ stored p (differs i (omega arith) (omega arith));
  }
    where
      stored : (p : ℕ) → p ≢ entry_at dst i → one.after.memory.words p ≡ s.memory.words p
      stored p differs =
          ap (λ w. w p) one.stores
          ∙ store_else s.memory.words (entry_at dst i) (s.memory.words (entry_at src i)) p differs

      copied_here : s'.memory.words (entry_at dst i) ≡ s.memory.words (entry_at src i)
      copied_here =
          rest.kept (entry_at dst i) (λ j low high same. absurd (omega (arith, same)))
          ∙ ap (λ w. w (entry_at dst i)) one.stores
          ∙ store_here s.memory.words (entry_at dst i) (s.memory.words (entry_at src i))

      after_first : (j : ℕ) → i ≤ j → (j == i) ≡ false → i + 1 ≤ j
      after_first j low later = ground arith

  pub record Copies (src dst i left : ℕ) (s : Session S V) : Type 0 where
    pub after : Session S V
    pub ends : copy_entries e src dst left i s ≡ done (ok tt) after
    pub result : Copied src dst i left s after

  pub copy_entries-Copies :
      (src dst left i : ℕ) (s : Session S V)
      → Apart src dst
      → i + left ≤ entry_count
      → Copies src dst i left s
  unfolding copy_entries
  copy_entries-Copies src dst zero i s apart room = record {
    after = s;
    ends = refl;
    result = record {
      same_root = refl;
      copied = λ j low high. absurd (omega arith);
      kept = λ p differs. refl;
    };
  }
  copy_entries-Copies src dst (suc left) i s apart room =
      let one = copy_entry-Round src dst i s in
      let rest = copy_entries-Copies src dst left (i + 1) one.after apart (omega arith) in
      record {
        after = rest.after;
        ends = rw one.ends rest.ends;
        result = Copied-step one apart room rest.result;
      }
