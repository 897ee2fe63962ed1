-- ===== src/Content/Driver/Rules.antt =====
-- Proof rules for code on the driver. `Meets P E Q m`: from tables that satisfy `P`, `m` ends in
-- tables that satisfy `Q` with its result, or fails in tables that satisfy `E`, whatever fails.
use flo_mimi.Prelude.{
  ℕ, Bool, true, false, Option, none, some, ◌≡◌, refl, sym, arith, Text, Error, Result, ok, err,
  Action, wrapped, pure, raise, continue, ◌>>=◌, if◌then◌else◌,
}
use mathlib.Core.Path.{subst}
use flo_mimi.Content.Schema.{Tables, Statement}
use flo_mimi.Content.Driver.{
  Driver, Session, exec, answer, settle, transact, finish, commit, begin_tx,
}

abbrev pub Post :
    {A : Type 0} (E : Tables → Type 0) (Q : A → Tables → Type 0) → Result A × Session → Type 0
Post E Q (ok a, s) = Q a s.tables
Post E Q (err e, s) = E s.tables

pub record Meets {A : Type 0} (P E : Tables → Type 0) (Q : A → Tables → Type 0)
    (m : Action Session A) : Type 0 where
  pub run : (s : Session) → P s.tables → Post E Q (m s)

module _ {A : Type 0} (E : Tables → Type 0) (Q : A → Tables → Type 0) where
  Post-continue :
      {B : Type 0} (R : B → Tables → Type 0) (f : A → Action Session B) (r : Result A × Session)
      → ((a : A) → Meets (Q a) E R (f a))
      → Post E Q r
      → Post E R (continue f r)
  Post-continue R f (ok a, s) k h = (k a).run s h
  Post-continue R f (err e, s) k h = h

  Post-wrapped : (what : Text) (r : Result A × Session) → Post E Q r → Post E Q (wrapped what r)
  Post-wrapped what (ok a, s) h = h
  Post-wrapped what (err e, s) h = h

  Post-settle :
      (driver : Driver) (r : Result (A × Tables)) (s : Session)
      → E s.tables
      → ((a : A) (t : Tables) → r ≡ ok (a, t) → Q a t)
      → Post E Q (settle driver r s)
  Post-settle driver (ok (a, t)) s e q = q a t refl
  Post-settle driver (err x) s e q = e

  Post-answer :
      (driver : Driver) (fault : Option Error) (statement : ℕ → Statement A) (s : Session)
      → E s.tables
      → ((n : ℕ) (a : A) (t : Tables) → statement n s.tables ≡ ok (a, t) → Q a t)
      → Post E Q (answer driver fault statement s)
  Post-answer driver (some x) statement s e q = e
  Post-answer driver none statement s e q =
      Post-settle driver (statement (driver.now s.calls) s.tables) _ e (q (driver.now s.calls))

  Post-finish :
      (P : Tables → Type 0) (driver : Driver) (before : Tables) (r : Result A × Session)
      → P before
      → Post E Q r
      → Post P Q (finish driver before r)
  Post-finish P driver before (err e, s) p h = p
  Post-finish P driver before (ok a, s) p h = committed (driver.fault s.calls)
    where
      committed : (fault : Option Error) → Post P Q (commit driver before a fault s)
      committed none = h
      committed (some e) = p

module _ {A B : Type 0} {P E : Tables → Type 0} {Q : A → Tables → Type 0}
    {R : B → Tables → Type 0} where
  pub Meets-bind :
      (m : Action Session A) (f : A → Action Session B)
      → Meets P E Q m
      → ((a : A) → Meets (Q a) E R (f a))
      → Meets P E R (m >>= f)
  Meets-bind m f h k = record { run = λ s p. Post-continue E Q R f (m s) k (h.run s p) }

module _ {A : Type 0} {P E : Tables → Type 0} {Q : A → Tables → Type 0} where
  pub Meets-pure : (a : A) → ((t : Tables) → P t → Q a t) → Meets P E Q (pure a)
  Meets-pure a h = record { run = λ s p. h s.tables p }

  pub Meets-raise : (e : Error) → ((t : Tables) → P t → E t) → Meets P E Q (raise e)
  Meets-raise e h = record { run = λ s p. h s.tables p }

  pub Meets-wrapped :
      (what : Text) (m : Action Session A) → Meets P E Q m → Meets P E Q (λ s. wrapped what (m s))
  Meets-wrapped what m h = record { run = λ s p. Post-wrapped E Q what (m s) (h.run s p) }

  pub Meets-if :
      (b : Bool) (m n : Action Session A)
      → (b ≡ true → Meets P E Q m)
      → (b ≡ false → Meets P E Q n)
      → Meets P E Q (if b then m else n)
  Meets-if true m n h k = h refl
  Meets-if false m n h k = k refl

  -- One call: on success the statement was carried out, and on an error nothing was.
  pub Meets-exec :
      (driver : Driver) (statement : ℕ → Statement A)
      → ((t : Tables) → P t → E t)
      → ((n : ℕ) (t : Tables) (a : A) (t' : Tables) → P t → statement n t ≡ ok (a, t') → Q a t')
      → Meets P E Q (exec driver statement)
  Meets-exec driver statement e q = record {
    run =
        unfold exec in
        λ s p.
          Post-answer E Q driver (driver.fault s.calls) statement s (e s.tables p)
            (λ n a t. q n s.tables a t p);
  }

Post-weaken :
    {A : Type 0} (E E' : Tables → Type 0) (Q Q' : A → Tables → Type 0) (r : Result A × Session)
    → ((t : Tables) → E t → E' t)
    → ((a : A) (t : Tables) → Q a t → Q' a t)
    → Post E Q r
    → Post E' Q' r
Post-weaken E E' Q Q' (ok a, s) e q h = q a s.tables h
Post-weaken E E' Q Q' (err x, s) e q h = e s.tables h

module _ {A : Type 0} {P E E' : Tables → Type 0} {Q Q' : A → Tables → Type 0} where
  pub Meets-weaken :
      (m : Action Session A)
      → ((t : Tables) → E t → E' t)
      → ((a : A) (t : Tables) → Q a t → Q' a t)
      → Meets P E Q m
      → Meets P E' Q' m
  Meets-weaken m e q h = record { run = λ s p. Post-weaken E E' Q Q' (m s) e q (h.run s p) }

begin_tx-Meets : (P : Tables → Type 0) (driver : Driver) → Meets P P (λ _. P) (begin_tx driver)
begin_tx-Meets P driver = Meets-wrapped _ (exec driver (λ _ t. ok (tt, t))) (
    Meets-exec driver (λ _ t. ok (tt, t)) (λ t p. p)
      (λ n t a t' p e. subst P (sym (same_tables e)) p))
  where
    same_tables :
        {t t' : Tables} {a : Unit {0}}
        → ◌≡◌ {A = Result (Unit {0} × Tables)} (ok (tt, t)) (ok (a, t'))
        → t' ≡ t
    same_tables e = ground arith

module _ {A : Type 0} {P E : Tables → Type 0} {Q : A → Tables → Type 0} where
  -- A transaction that fails anywhere ends in the tables that it began with.
  pub Meets-transact :
      (driver : Driver) (body : Action Session A)
      → Meets P E Q body
      → Meets P P Q (transact driver body)
  unfolding transact
  Meets-transact driver body h =
      Meets-bind (begin_tx driver) _ (begin_tx-Meets P driver)
        (λ _. record { run = λ s p. Post-finish E Q P driver s.tables (body s) p (h.run s p) })
