-- ===== src/Paging/Run.antt =====
-- Commands: a state of any kind is passed on, also where the result is an error.
use page_table_multiarch.Common.{◌≡◌, Bool, true, false}
use page_table_multiarch.Paging.{PagingError, PagingResult, ok, err}

-- `panic` is a failed `assert!` or `unreachable!`; `out_of_fuel` is no outcome of the code.
pub data Run (St A : Type 0) : Type 0 where
  done : PagingResult A → St → Run St A
  panic : Run St A
  out_of_fuel : Run St A

abbrev pub Cmd : Type 0 → Type 0 → Type 0
Cmd St A = St → Run St A

module _ {St A : Type 0} where
  abbrev pub pure : A → Cmd St A
  pure a s = done (ok a) s

  abbrev pub throw : PagingError → Cmd St A
  throw e s = done (err e) s

  abbrev pub unreachable : Cmd St A
  unreachable s = panic

  -- a result of code that reads no state, for `?`
  abbrev pub lift : PagingResult A → Cmd St A
  lift r s = done r s

module _ {St A B : Type 0} where
  abbrev pub and_then : Run St A → (A → Cmd St B) → Run St B
  and_then (done (ok a) s) k = k a s
  and_then (done (err e) s) k = done (err e) s
  and_then panic k = panic
  and_then out_of_fuel k = out_of_fuel

  infixl 5 ◌>>=◌ ◌>>◌
  abbrev pub ◌>>=◌ : Cmd St A → (A → Cmd St B) → Cmd St B
  m >>= k = λ s. and_then (m s) k

  abbrev pub ◌>>◌ : Cmd St A → Cmd St B → Cmd St B
  m >> n = m >>= λ _. n

module _ {St : Type 0} where
  -- `assert!`
  abbrev pub assert : Bool → Cmd St (Unit {0})
  assert true s = done (ok tt) s
  assert false s = panic

abbrev pub is_ok {ℓ} : {A : Type ℓ} → PagingResult A → Bool
is_ok (ok _) = true
is_ok (err _) = false

module _ {St A : Type 0} where
  pub state-same : {r r' : PagingResult A} {s s' : St} → done r s ≡ done r' s' → s ≡ s'
  state-same same = cc
