-- ===== src/Content/Race/Keys.antt =====
-- What a call of the machines keeps of the tables.
use flo_mimi.Prelude.{
  ℕ, Option, none, some, ◌≡◌, refl, arith, Text, Error, Result, ok, err, wrapped,
}
use mathlib.Core.Path.{subst}
use flo_mimi.Content.Schema.{Tables, Statement}
use flo_mimi.Content.Race.{Stage, settled, call, go_on}

module _ {A : Type 0} (P : Tables → Type 0) where
  pub settled-keeps :
      (r : Result (A × Tables)) (t : Tables)
      → P t
      → ((a : A) (t' : Tables) → r ≡ ok (a, t') → P t')
      → P (settled r t).1
  settled-keeps (ok (a, t')) t h k = k a t' refl
  settled-keeps (err e) t h k = h

  pub call-keeps :
      (fault : Option Error) (now : ℕ) (statement : ℕ → Statement A) (t : Tables)
      → P t
      → ((a : A) (t' : Tables) → statement now t ≡ ok (a, t') → P t')
      → P (call fault now statement t).1
  call-keeps none now statement t h k = settled-keeps (statement now t) t h k
  call-keeps (some e) now statement t h k = h

  -- A query changes nothing.
  pub unchanged :
      (a : A) (t : Tables) (b : A) (t' : Tables)
      → P t
      → ◌≡◌ {A = Result (A × Tables)} (ok (a, t)) (ok (b, t'))
      → P t'
  unchanged a t b t' h e = let same_tables : t ≡ t' = ground arith in subst P same_tables h

  pub go_on-keeps :
      (f : A → Stage) (what : Text) (r : Result A × Tables) → P r.1 → P (go_on f (wrapped what r)).1
  go_on-keeps f what (ok a, t) h = h
  go_on-keeps f what (err e, t) h = h
