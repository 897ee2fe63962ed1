-- ===== src/Prelude/Results.antt =====
-- Go's `(value, error)` pairs as a result type, and stateful fallible code as functions of a state.
-- What was done before an error stays done, so the state comes back beside the error too.
use mathlib.Core.Path.{◌≡◌, refl}
use mathlib.Core.Logic.{◌≢◌}
use mathlib.Core.Option.{some}
use package.flo_mimi.Prelude.Texts.{Text}

-- `message m` is `fmt.Errorf(m)`; `wrap p e` is `fmt.Errorf("p: %w", e)`. Texts that `%q` quotes stay apart.
pub data Error : Type 0 where
  message : Text → Error
  wrap : Text → Error → Error
  quoted : Text → Text → Text → Error
  wrap_quoted : Text → Text → Error → Error

pub data Result {ℓ} (A : Type ℓ) : Type ℓ where
  ok : A → Result A
  err : Error → Result A

module _ {ℓ} {A : Type ℓ} where
  pub ok-same : {a b : A} → ok a ≡ ok b → a ≡ b
  ok-same h = cc

  pub some-same : {a b : A} → some a ≡ some b → a ≡ b
  some-same h = cc

  pub ok-not-err : {a : A} {e : Error} → ok a ≢ err e
  ok-not-err h = cc

abbrev pub Action {ℓ} : Type ℓ → Type ℓ → Type ℓ
Action W A = W → Result A × W

module _ {ℓ} {W A : Type ℓ} where
  abbrev pub pure : A → Action W A
  pure a w = (ok a, w)

  abbrev pub raise : Error → Action W A
  raise e w = (err e, w)

  -- `if err != nil { return fmt.Errorf("p: %w", err) }`
  abbrev pub wrapped : Text → Result A × W → Result A × W
  wrapped p (ok a, w) = (ok a, w)
  wrapped p (err e, w) = (err (wrap p e), w)

module _ {ℓ} {W A B : Type ℓ} where
  abbrev pub continue : (A → Action W B) → Result A × W → Result B × W
  continue f (ok a, w) = f a w
  continue f (err e, w) = (err e, w)

  infixl 5 ◌>>=◌ ◌>>◌
  abbrev pub ◌>>=◌ : Action W A → (A → Action W B) → Action W B
  ◌>>=◌ m f w = continue f (m w)

  abbrev pub ◌>>◌ : Action W A → Action W B → Action W B
  m >> n = m >>= λ _. n

  -- Inversion of a successful bind.
  pub continue-eq-ok :
      (f : A → Action W B) (r : Result A × W) {b : B} {w'' : W}
      → continue f r ≡ (ok b, w'')
      → (a : A) × (w' : W) × (r ≡ (ok a, w')) × (f a w' ≡ (ok b, w''))
  continue-eq-ok f (ok a, w') h = (a, w', refl, h)
  continue-eq-ok f (err e, w') h = cc
