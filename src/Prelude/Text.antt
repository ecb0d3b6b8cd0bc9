-- ===== src/Prelude/Text.antt =====
-- Python's `text.split(sep)` for a separator of one character.
use Prim.Native.Char.{Char, code}
use Prim.Native.String.{String}
use Prim.Native.String.append
use Prim.Native.String
use mathlib.Core.Path.{◌≡◌, refl}
use mathlib.Core.Logic.{◌≢◌}
use mathlib.Core.List.{List, [], ◌∷◌, ◌++◌}
use Prim.Native.Nat.{ℕ}
use native.Mathlib.Omega.{arith}
use model_eval.Prelude.Tests.{◌==◌, if◌then◌else◌}

-- The text that both arguments spell.
infixr 65 ◌+++◌
abbrev pub ◌+++◌ : String → String → String
s +++ t = String.◌++◌ s t

-- Puts a character in front of the first part.
abbrev pub extend_first : Char → List String → List String
extend_first c [] = (String.◌∷◌ c String.[]) ∷ []
extend_first c (p ∷ ps) = (String.◌∷◌ c p) ∷ ps

unfoldable pub split_on : ℕ → String → List String
split_on sep String.[] = String.[] ∷ []
split_on sep (String.◌∷◌ c s) =
    let rest = split_on sep s in if code c == sep then String.[] ∷ rest else extend_first c rest

split_on-ne-nil : (sep : ℕ) (s : String) → split_on sep s ≢ []
unfolding split_on
split_on-ne-nil sep String.[] = ground arith
split_on-ne-nil sep (String.◌∷◌ c s) = ground (arith, split_on-ne-nil sep s)

extend_first-append :
    (c : Char) (ps qs : List String) → ps ≢ [] → extend_first c (ps ++ qs) ≡ extend_first c ps ++ qs
extend_first-append c [] qs h = absurd (h refl)
extend_first-append c (p ∷ ps) qs h = refl

-- Splitting at the separator between two texts.
pub split_on-append :
    (sep : ℕ) (s t : String) (c : Char)
    → code c ≡ sep
    → split_on sep (s +++ String.◌∷◌ c t) ≡ split_on sep s ++ split_on sep t
unfolding split_on
split_on-append sep String.[] t c h = ground (arith, append.nil (String.◌∷◌ c t))
split_on-append sep (String.◌∷◌ d s) t c h = rw (append.cons d s (String.◌∷◌ c t)) (
    ground (
      arith,
      split_on-append sep s t c h,
      extend_first-append d (split_on sep s) (split_on sep t) (split_on-ne-nil sep s),
    ))
