-- ===== src/Table32/Looped.antt =====
-- Loops that rewrite the entries of a region page by page: one round, and the rest.
use mathlib.Core.Path.{subst}
use page_table_multiarch.Common.{
  ℕ, ◌+◌, ◌-◌, ◌%◌, ◌^◌, ◌≤◌, ◌<◌, ◌≡◌, ◌≢◌, ◌⊎◌, refl, sym, ap, ◌∙◌, inl, inr, true, Option, some,
  none, leb, arith,
}
use native.Mathlib.Decide.{dec_lt}
use page_table_multiarch.Paging.{PageSize, size_of, is_aligned, Platform}
use page_table_multiarch.Paging.Run.{Cmd, assert, ◌>>◌}
use page_table_multiarch.Paging.Flusher.{asks}
use page_table_multiarch.Table32.Contract.{IsPlatform}
use page_table_multiarch.Table32.Placed.{Owners, page}
use page_table_multiarch.Table32.Session.{IsSession, answers, Changes}
use page_table_multiarch.Table32.Mapped.{IsSize, is_4k, is_1m}
use page_table_multiarch.Table32.Choose.{page-range, Outside, rest-Outside}
use page_table_multiarch.Table32.Tiled.{answers-page, answers-hole}
use page_table_multiarch.Table32.Cursor.{Session}

abbrev pub Entry : Type 0
Entry = Option (ℕ × PageSize)

module _ {S V B : Type 0} {e : Platform S V B} (a : IsPlatform e)
    (rewrite_entry : Entry → Entry) where
  -- a request to flush the page of an address
  abbrev pub FlushesPage : Session S V → PageSize → ℕ → Type 0
  FlushesPage s size u =
      (b : ℕ) × (page size b ≡ page size u) × (asks e.vec s.cursor.flusher b ≡ true)

  -- The entries of the addresses from `v` on are rewritten, and no others. What is mapped there is to
  -- be flushed, with all that was to be flushed before.
  pub record Rewritten (s s' : Session S V) (v size : ℕ) : Type 0 where
    pub owner : Owners
    pub session : IsSession a owner s'
    pub inside :
        (u : ℕ) → u < 2 ^ 32 → v ≤ u → u < v + size → answers a s' u ≡ rewrite_entry (answers a s u)
    pub outside : (u : ℕ) → u < 2 ^ 32 → Outside v size u → answers a s' u ≡ answers a s u
    pub flushed :
        (u word : ℕ) (z : PageSize)
        → u < 2 ^ 32
        → v ≤ u
        → u < v + size
        → answers a s u ≡ some (word, z)
        → FlushesPage s' z u
    pub flushed_old :
        (u : ℕ) → asks e.vec s.cursor.flusher u ≡ true → asks e.vec s'.cursor.flusher u ≡ true

  -- A round that takes a page of the given size.
  module _ {s s1 : Session S V} {v size : ℕ} {chosen : PageSize} (kind : IsSize chosen)
      (aligned : v % size_of chosen ≡ 0) (fits : size_of chosen ≤ size) (room : v + size ≤ 2 ^ 32)
      (one : Rewritten s s1 v (size_of chosen)) where
    abbrev next : ℕ
    next = (v + size_of chosen) % 2 ^ 32

    abbrev left : ℕ
    left = size - size_of chosen

    -- the rest of the region has its answers still
    pub rest_same :
        (u : ℕ) → u < 2 ^ 32 → next ≤ u → u < next + left → answers a s1 u ≡ answers a s u
    rest_same u small low high = one.outside u small (inr (omega arith))

    wider : {u : ℕ} → Outside v size u → (u < v + size_of chosen) ⊎ (v + size ≤ u)
    wider (inl before) = inl (omega arith)
    wider (inr behind) = inr behind

    nearer : {u : ℕ} → Outside v size u → Outside v (size_of chosen) u
    nearer (inl before) = inl before
    nearer (inr behind) = inr (omega arith)

    pub rewritten_rest : (s' : Session S V) → Rewritten s1 s' next left → Rewritten s s' v size
    rewritten_rest s' rest = record {
      owner = rest.owner;
      session = rest.session;
      inside = λ u small low high. elim (dec_lt u (v + size_of chosen)) [
        | yes here ↦
            rest.outside u small (rest-Outside v size (size_of chosen) u fits room (inl here))
            ∙ one.inside u small low here
        | no behind ↦
            rest.inside u small (omega arith) (omega arith)
            ∙ ap rewrite_entry (one.outside u small (inr (omega arith)))
      ];
      outside = λ u small side.
          rest.outside u small (rest-Outside v size (size_of chosen) u fits room (wider side))
          ∙ one.outside u small (nearer side);
      flushed = λ u word z small low high here. elim (dec_lt u (v + size_of chosen)) [
        | yes near ↦
            let (b, in_page, asked) = one.flushed u word z small low near here in
            (b, in_page, rest.flushed_old b asked)
        | no behind ↦
            rest.flushed u word z small (omega arith) (omega arith)
              (rest_same u small (omega arith) (omega arith) ∙ here)
      ];
      flushed_old = λ u h. rest.flushed_old u (one.flushed_old u h);
    }

  -- A region without addresses.
  pub rewritten_none :
      {owner : Owners} (s : Session S V) (v : ℕ) → IsSession a owner s → Rewritten s s v 0
  rewritten_none {owner} s v t = record {
    owner = owner;
    session = t;
    inside = λ u small low high. absurd (omega arith);
    outside = λ u small side. refl;
    flushed = λ u word z small low high here. absurd (omega arith);
    flushed_old = λ u h. h;
  }

  -- A round on a page that is mapped.
  pub page_round :
      {owner : Owners} {s s1 : Session S V} {v word : ℕ} {chosen : PageSize} {new : Entry}
      → IsSize chosen
      → v % size_of chosen ≡ 0
      → v + size_of chosen ≤ 2 ^ 32
      → answers a s v ≡ some (word, chosen)
      → rewrite_entry (some (word, chosen)) ≡ new
      → Changes a owner s s1 chosen v new
      → Rewritten s s1 v (size_of chosen)
  page_round {owner} {s} {s1} {v} {word} {chosen} kind aligned room here rewrites c = record {
    owner = owner;
    session = c.session;
    inside = λ u small low high.
        c.here u (in_page u small low high)
        ∙ sym (ap rewrite_entry (alike u small low high ∙ here) ∙ rewrites);
    outside = λ u small side. c.others u (apart u small side);
    flushed = λ u word' z small low high mapped.
        let same = size_of_page (sym here ∙ sym (alike u small low high) ∙ mapped) in
        (v, subst (λ z. page z v ≡ page z u) same (sym (in_page u small low high)), c.requested);
    flushed_old = c.requested_old;
  }
    where
      size_of_page : {x y : ℕ × PageSize} → some x ≡ some y → x.1 ≡ y.1
      size_of_page eq = cc

      in_page :
          (u : ℕ) → u < 2 ^ 32 → v ≤ u → u < v + size_of chosen → page chosen u ≡ page chosen v
      in_page u small low high = (page-range u v kind small aligned room).1 (low, high)

      alike : (u : ℕ) → u < 2 ^ 32 → v ≤ u → u < v + size_of chosen → answers a s u ≡ answers a s v
      alike u small low high = answers-page a s u v here (in_page u small low high)

      apart : (u : ℕ) → u < 2 ^ 32 → Outside v (size_of chosen) u → page chosen u ≢ page chosen v
      apart u small (inl before) same =
          absurd (omega (arith, ((page-range u v kind small aligned room).0 same).0))
      apart u small (inr behind) same =
          absurd (omega (arith, ((page-range u v kind small aligned room).0 same).1))

  -- A round on a hole.
  pub hole_round :
      {owner : Owners} {s : Session S V} {v : ℕ}
      → v % 0x1000 ≡ 0
      → v + 0x1000 ≤ 2 ^ 32
      → answers a s v ≡ none
      → rewrite_entry none ≡ none
      → IsSession a owner s
      → Rewritten s s v 0x1000
  hole_round {owner} {s} {v} aligned room here keeps t = record {
    owner = owner;
    session = t;
    inside = λ u small low high.
        empty u small low high ∙ sym (ap rewrite_entry (empty u small low high) ∙ keeps);
    outside = λ u small side. refl;
    flushed =
        λ u word z small low high mapped. absurd (no_page (sym (empty u small low high) ∙ mapped));
    flushed_old = λ u h. h;
  }
    where
      no_page : {x : ℕ × PageSize} → none ≡ some x → ⊥
      no_page eq = cc

      empty : (u : ℕ) → u < 2 ^ 32 → v ≤ u → u < v + 0x1000 → answers a s u ≡ none
      empty u small low high =
          answers-hole a s u v here ((page-range u v is_4k small aligned room).1 (low, high))

-- The two assertions of a round hold of a page that lies in the region.
pub asserted :
    {S V B A : Type 0} {e : Platform S V B}
    → IsPlatform e
    → {chosen : PageSize} (v : ℕ) {size : ℕ} (k : Cmd (Session S V) A) (s : Session S V)
    → IsSize chosen
    → v % size_of chosen ≡ 0
    → size_of chosen ≤ size
    → (assert (is_aligned e.addr chosen v) >> (assert (leb (size_of chosen) size) >> k)) s ≡ k s
asserted a v k s is_4k aligned fits = rw (a.alignment.is_aligned_lem v 12) (ground arith)
asserted a v k s is_1m aligned fits = rw (a.alignment.is_aligned_lem v 20) (ground arith)
