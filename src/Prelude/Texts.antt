-- ===== src/Prelude/Texts.antt =====
-- Texts: a Go string is the list of its runes, where a byte that is not part of the encoding of a rune
-- stands as 0x110000 plus the byte. A text out of the JSON decoder or of a literal has no such byte; the
-- path of a request, whose escapes are decoded, and a header can.
use Prim.Native.Nat.{ℕ}
use Prim.Native.Char.{code}
use Prim.Native.String.{String}
use mathlib.Core.Path.{◌≡◌, refl}
use mathlib.Core.Logic.{◌↔◌, ite, dite}
use mathlib.Core.Bool.{Bool, true, false, ◌&&◌, Bool-discrete}
use mathlib.Core.List.{List, [], ◌∷◌}
use native.Mathlib.Omega.{arith}
use package.flo_mimi.Prelude.Tests.{leb, ◌==◌}

abbrev pub Text : Type 0
Text = List ℕ

abbrev pub codes : String → Text
codes String.[] = []
codes (String.◌∷◌ c s) = code c ∷ codes s

eqb : Text → Text → Bool
eqb [] [] = true
eqb (a ∷ s) (b ∷ t) = a == b && eqb s t
eqb _ _ = false

eqb_iff : (s t : Text) → (eqb s t ≡ true) ↔ (s ≡ t)
unfolding eqb
eqb_iff [] [] = (λ _. refl, λ _. refl)
eqb_iff [] (b ∷ t) = (λ h. cc, λ h. cc)
eqb_iff (a ∷ s) [] = (λ h. cc, λ h. cc)
eqb_iff (a ∷ s) (b ∷ t) = (λ h. ground (arith, eqb_iff s t), λ h. ground (arith, eqb_iff s t))

-- Shut in proofs, where a split yields the equation or its negation.
unfoldable pub Text-discrete : Discrete Text
unfolding eqb eqb_iff
Text-discrete s t =
    dite (Bool-discrete (eqb s t) true) (λ same. yes ((eqb_iff s t).0 same))
      (λ differ. no (λ p. differ ((eqb_iff s t).1 p)))

-- Go's `==` on strings.
abbrev pub same : Text → Text → Bool
same s t = ite (Text-discrete s t) true false

-- utf8.ValidString
unfoldable pub is_utf8 : Text → Bool
is_utf8 [] = true
is_utf8 (c ∷ s) = let rest = is_utf8 s in leb c 0x10ffff && rest

abbrev pub is_blank : Text → Bool
is_blank [] = true
is_blank (_ ∷ _) = false
