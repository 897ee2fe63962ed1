-- ===== src/Prelude/Effects.antt =====
-- A property of the state that an action keeps, whatever its result, with a rule for each connective.
use mathlib.Core.Bool.{Bool, true, false}
use package.flo_mimi.Prelude.Tests.{if◌then◌else◌}
use package.flo_mimi.Prelude.Texts.{Text}
use package.flo_mimi.Prelude.Results.{
  Result, ok, err, Error, Action, wrapped, continue, pure, raise, ◌>>=◌,
}

pub record Keeps {W A : Type 0} (P : W → Type 0) (m : Action W A) : Type 0 where
  pub run : (w : W) → P w → P (m w).1

module _ {W : Type 0} (P : W → Type 0) where
  wrapped-keeps : {A : Type 0} (what : Text) (r : Result A × W) → P r.1 → P (wrapped what r).1
  wrapped-keeps what (ok a, w) h = h
  wrapped-keeps what (err e, w) h = h

  continue-keeps :
      {A B : Type 0} (f : A → Action W B) (r : Result A × W)
      → P r.1
      → ((a : A) → Keeps P (f a))
      → P (continue f r).1
  continue-keeps f (ok a, w) h k = (k a).run w h
  continue-keeps f (err e, w) h k = h

module _ {W : Type 0} {P : W → Type 0} where
  pub Keeps-pure : {A : Type 0} (a : A) → Keeps P (pure a)
  Keeps-pure a = record { run = λ w h. h }

  pub Keeps-raise : {A : Type 0} (e : Error) → Keeps {A = A} P (raise e)
  Keeps-raise e = record { run = λ w h. h }

  pub Keeps-wrapped :
      {A : Type 0} (what : Text) (m : Action W A) → Keeps P m → Keeps P (λ w. wrapped what (m w))
  Keeps-wrapped what m k = record { run = λ w h. wrapped-keeps P what (m w) (k.run w h) }

  pub Keeps-bind :
      {A B : Type 0} (m : Action W A) (f : A → Action W B)
      → Keeps P m
      → ((a : A) → Keeps P (f a))
      → Keeps P (m >>= f)
  Keeps-bind m f k ks = record { run = λ w h. continue-keeps P f (m w) (k.run w h) ks }

  pub Keeps-if :
      {A : Type 0} (b : Bool) (m n : Action W A)
      → Keeps P m
      → Keeps P n
      → Keeps P (if b then m else n)
  Keeps-if true m n k l = k
  Keeps-if false m n k l = l
