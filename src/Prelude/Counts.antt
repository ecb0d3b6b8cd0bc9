-- ===== src/Prelude/Counts.antt =====
-- A dict that counts: `d[k] = d.get(k, 0) + 1`.
use Prim.Native.Nat.{ℕ, ◌+◌}
use mathlib.Core.Path.{◌≡◌}
use mathlib.Core.List.{List, [], ◌∷◌}
use native.Mathlib.Omega.{arith}
use model_eval.Prelude.Tests.{if◌then◌else◌}
use model_eval.Prelude.Keys.{Key, ◌=?◌}

abbrev pub Tally {ℓ} : Type ℓ → Type ℓ
Tally K = List (K × ℕ)

-- The sum of all counts.
abbrev pub total {ℓ} : {K : Type ℓ} → Tally K → ℕ
total [] = 0
total ((k, n) ∷ t) = n + total t

module _ {ℓ} {K : Type ℓ} ⦃key : Key K⦄ where
  -- `d.get(k, 0)`
  abbrev pub tallied : K → Tally K → ℕ
  tallied k [] = 0
  tallied k ((j, n) ∷ t) = if k =? j then n else tallied k t

  abbrev pub bump : K → Tally K → Tally K
  bump k [] = (k, 1) ∷ []
  bump k ((j, n) ∷ t) = if k =? j then (j, n + 1) ∷ t else (j, n) ∷ bump k t

  pub total-bump : (k : K) (t : Tally K) → total (bump k t) ≡ total t + 1
  total-bump k [] = omega arith
  total-bump k ((j, n) ∷ t) = ground (arith, total-bump k t)

  pub tallied-bump :
      (j k : K) (t : Tally K)
      → tallied j (bump k t) ≡ (if j =? k then tallied j t + 1 else tallied j t)
  tallied-bump j k [] = ground (arith, key.same_iff j k)
  tallied-bump j k ((i, n) ∷ t) =
      ground (arith, tallied-bump j k t, key.same_iff j k, key.same_iff k i, key.same_iff j i)
