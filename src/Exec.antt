-- ===== src/Exec.antt =====
-- Go code that changes a state and may fail: a function from the state to a result and a new state.
-- What was changed before an error stays changed.
use fq_client_go.Common.{◌≡◌}
use fq_client_go.Errors.{Error, Result, ok, err}

abbrev pub Exec {ℓ κ} : Type ℓ → Type κ → Type (ℓ ⊔ κ)
Exec S A = S → Result A × S

module _ {ℓ} {S A : Type ℓ} where
  abbrev pub pure : A → Exec S A
  pure a s = (ok a, s)

  abbrev pub raise : Error → Exec S A
  raise e s = (err e, s)

  -- A pure step that may fail.
  abbrev pub lift : Result A → Exec S A
  lift r s = (r, s)

  -- `fmt.Errorf("…: %w", err)` and the like, on the error of a step.
  abbrev pub map_error : (Error → Error) → Result A × S → Result A × S
  map_error f (ok a, s) = (ok a, s)
  map_error f (err e, s) = (err (f e), s)

module _ {ℓ} {S A B : Type ℓ} where
  abbrev pub proceed : Result A × S → (A → Exec S B) → Result B × S
  proceed (ok a, s) f = f a s
  proceed (err e, s) f = (err e, s)

  infixl 5 ◌>>=◌
  abbrev pub ◌>>=◌ : Exec S A → (A → Exec S B) → Exec S B
  ◌>>=◌ m f s = proceed (m s) f

module _ {ℓ} {S A B : Type ℓ} where
  infixl 5 ◌>>◌
  abbrev pub ◌>>◌ : Exec S A → Exec S B → Exec S B
  ◌>>◌ m k = m >>= λ _. k

-- A step whose result is known.
module _ {ℓ} {S A B : Type ℓ} (out : Result A × S) (f : A → Exec S B) where
  pub proceed-ok : (a : A) → out.0 ≡ ok a → proceed out f ≡ f a out.1
  proceed-ok a e = λ i. proceed (e i, out.1) f

  pub proceed-err : (e : Error) → out.0 ≡ err e → proceed out f ≡ (err e, out.1)
  proceed-err e h = λ i. proceed (h i, out.1) f
