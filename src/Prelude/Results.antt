-- ===== src/Prelude/Results.antt =====
-- Go's pair of a value and an `error`: the value where the error is nil, the error otherwise.
-- An `error` is a chain of wrapped errors that `errors.Is` and `errors.As` walk.
use Prim.Native.String.{String}
use mathlib.Core.Path.{◌≡◌, refl}
use mathlib.Core.Logic.{◌⊎◌, inl, inr}

pub data Error : Type 0 where
  -- answers of the Kubernetes API: not found, conflict, and any other with its text
  api_not_found api_conflict api_failure : String → Error
  -- answers of the operating system: the file is not there, and any other
  os_not_exist os_failure : String → Error
  -- the sentinel errors of package httpd
  multiple_machines multiple_provisions invalid_phase_transition file_not_found : Error
  -- an error that wraps none
  plain : String → Error
  -- `fmt.Errorf("before%wafter")`
  wrap : String → Error → String → Error

pub data Result {ℓ} (A : Type ℓ) : Type ℓ where
  ok : A → Result A
  err : Error → Result A

pub Result-cases {ℓ} :
    {A : Type ℓ} (r : Result A) → ((a : A) × (r ≡ ok a)) ⊎ ((e : Error) × (r ≡ err e))
Result-cases (ok a) = inl (a, refl)
Result-cases (err e) = inr (e, refl)
