-- ===== src/Prelude/First.antt =====
-- The first element of a list that passes a test.
use mathlib.Core.Path.{◌≡◌, refl, ap, ◌∙◌, subst}
use mathlib.Core.Logic.{◌↔◌, inl, inr}
use mathlib.Core.Bool.{Bool, true, not}
use mathlib.Core.Option.{Option, none, some}
use mathlib.Core.List.{List, [], ◌∷◌, ◌++◌}
use native.Mathlib.Omega.{arith}
use model_eval.Prelude.Tests.{if◌then◌else◌, if-cases, Bool-cases}
use model_eval.Prelude.Lists.{all_of}

module _ {ℓ} {A : Type ℓ} (p : A → Bool) where
  -- An element that passes and has only elements that do not in front of it.
  abbrev pub IsFirst : List A → A → Type ℓ
  IsFirst xs x =
      (before : List A) × (after : List A) × (xs ≡ before ++ x ∷ after)
      × (all_of (λ y. not (p y)) before ≡ true)
      × (p x ≡ true)

  -- `next((x for x in xs if p(x)), None)`
  abbrev pub first_of : List A → Option A
  first_of [] = none
  first_of (x ∷ xs) = if p x then some x else first_of xs

  some_inj : {a b : A} → some a ≡ some b → a ≡ b
  some_inj h = ground (arith, h)

  first_of-IsFirst : (xs : List A) (x : A) → first_of xs ≡ some x → IsFirst xs x
  first_of-IsFirst [] x h = absurd (ground (arith, h))
  first_of-IsFirst (y ∷ xs) x h = elim (if-cases (p y) _ _ (some x) h) [
    | inl (e, k) ↦ subst (λ (z : A). IsFirst (y ∷ xs) z) (some_inj k) ([], xs, refl, refl, e)
    | inr (e, k) ↦
        let (before, after, same, others, passes) = first_of-IsFirst xs x k in
        (y ∷ before, after, ap (λ (zs : List A). y ∷ zs) same, ground (arith, e, others), passes)
  ]

  first_of-append :
      (before after : List A) (x : A)
      → all_of (λ y. not (p y)) before ≡ true
      → p x ≡ true
      → first_of (before ++ x ∷ after) ≡ some x
  first_of-append [] after x h e = rw e refl
  first_of-append (y ∷ before) after x h e = elim (Bool-cases (p y)) [
    | inl b ↦ absurd (ground (arith, h, b))
    | inr b ↦ rw b (first_of-append before after x (ground (arith, h)) e)
  ]

  pub first_of_iff : (xs : List A) (x : A) → (first_of xs ≡ some x) ↔ IsFirst xs x
  first_of_iff xs x = (
    first_of-IsFirst xs x,
    λ (before, after, same, others, passes).
        ap first_of same ∙ first_of-append before after x others passes,
  )
