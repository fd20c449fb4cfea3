-- ===== src/Exec.antt =====
-- Go's functions that change a state and return an error: the state after the call comes back beside
-- the result or the error. `check` is the statement `if err != nil { return ... }`.
pub mod Ensures
use isoboot.Prelude.{String, Error, wrap, Result, ok, err}

abbrev pub Exec {ℓ} : Type ℓ → Type ℓ → Type ℓ
Exec S A = S → Result A × S

module _ {ℓ} {S A : Type ℓ} where
  abbrev pub pure : A → Exec S A
  pure a s = (ok a, s)

  abbrev pub fail : Error → Exec S A
  fail e s = (err e, s)

module _ {ℓ} {S A B : Type ℓ} where
  abbrev pub branch : Result A → (Error → Exec S B) → (A → Exec S B) → Exec S B
  branch (ok a) handler rest s = rest a s
  branch (err e) handler rest s = handler e s

  -- `a, err := m(); if err != nil { return handler(err) }; rest(a)`
  unfoldable pub check : Exec S A → (Error → Exec S B) → (A → Exec S B) → Exec S B
  check m handler rest s = let (r, s') = m s in branch r handler rest s'

  -- `a, err := m(); if err != nil { return err }; rest(a)`
  infixl 5 ◌>>=◌
  abbrev pub ◌>>=◌ : Exec S A → (A → Exec S B) → Exec S B
  m >>= rest = check m fail rest

module _ {ℓ} {S B : Type ℓ} where
  infixl 5 ◌>>◌
  abbrev pub ◌>>◌ : {A : Type ℓ} → Exec S A → Exec S B → Exec S B
  m >> rest = m >>= λ _. rest

  -- `_ = m()`: the result and the error of `m` are dropped.
  abbrev pub ignoring : {A : Type ℓ} → Exec S A → Exec S B → Exec S B
  ignoring m rest = check m (λ _. rest) (λ _. rest)

module _ {ℓ} {S A : Type ℓ} where
  -- `defer cleanup()` around a body; an error of the cleanup is dropped.
  unfoldable pub deferring : {B : Type ℓ} → Exec S B → Exec S A → Exec S A
  deferring cleanup body s = let (r, s') = body s in (r, (cleanup s').1)

  -- `fmt.Errorf("...: %w", err)` on the error of a call.
  unfoldable pub annotate : String → Exec S A → Exec S A
  annotate before m = check m (λ e. fail (wrap before e "")) pure
