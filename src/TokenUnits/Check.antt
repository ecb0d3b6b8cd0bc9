-- ===== src/TokenUnits/Check.antt =====
-- token_units.py, `crosscheck`: when it agrees.
use model_eval.Prelude.{
  ◌≡◌, refl, ◌↔◌, Bool, true, Option, some, List, [], ◌∷◌, arith, string_key, any_of, is_some, inl,
  inr, Bool-cases, Option-cases,
}
use model_eval.Prelude.Int.{ℤ, pos, ◌-ℤ◌, same_ℤ}
use model_eval.TokenUnits.{Req, crosscheck, totals, attributed, same_totals}

-- Whether a series reproduces both counts of the ledger.
abbrev pub reproduces : ℤ × ℤ → List Req → Bool
reproduces ledger series = same_totals (totals series) ledger

attributed-some :
    (ledger : ℤ × ℤ) (alternates : List (List Req))
    → is_some (attributed ledger alternates) ≡ any_of (reproduces ledger) alternates
unfolding attributed
attributed-some ledger [] = refl
attributed-some ledger (alt ∷ alternates) = ground (arith, attributed-some ledger alternates)

same_ℤ-zero : (a b : ℤ) → (same_ℤ a b ≡ true) ↔ (a -ℤ b ≡ pos 0)
unfolding ◌-ℤ◌
same_ℤ-zero a b = ground arith

attributed-same :
    (ledger found : ℤ × ℤ) (alternates : List (List Req))
    → attributed ledger alternates ≡ some found
    → same_totals found ledger ≡ true
unfolding attributed
attributed-same ledger found [] h = cc
attributed-same ledger found (alt ∷ alternates) h = elim (Bool-cases (reproduces ledger alt)) [
  | inl yes_it ↦ ground arith
  | inr other ↦ ground (arith, attributed-same ledger found alternates)
]

same_totals-zero :
    (found ledger : ℤ × ℤ)
    → (same_totals found ledger ≡ true) ↔ (
        ◌≡◌ {A = Option (ℤ × ℤ)}
          (some (found.0 -ℤ ledger.0, found.1 -ℤ ledger.1))
          (some (pos 0, pos 0)))
same_totals-zero found ledger =
    ground (arith, same_ℤ-zero found.0 ledger.0, same_ℤ-zero found.1 ledger.1)

-- A run with a record agrees exactly when its own series or one of the alternates reproduces both
-- counts of the ledger, and exactly when both reported differences are 0.
pub crosscheck-agrees :
    (ledger : ℤ × ℤ) (r : Req) (series : List Req) (alternates : List (List Req))
    → let c = crosscheck ledger (some (r ∷ series)) alternates in
      (c.agrees ≡ some (any_of (reproduces ledger) ((r ∷ series) ∷ alternates)))
      × ((c.agrees ≡ some true) ↔ (c.delta ≡ some (pos 0, pos 0)))
unfolding crosscheck
crosscheck-agrees ledger r series alternates = elim (Bool-cases (reproduces ledger (r ∷ series))) [
  | inl own ↦ ground (arith, same_totals-zero (totals (r ∷ series)) ledger)
  | inr other ↦ elim (Option-cases (attributed ledger alternates)) [
    | inl e ↦
        ground
          (arith, attributed-some ledger alternates, same_totals-zero (totals (r ∷ series)) ledger)
    | inr (found, e) ↦ ground (
      arith,
      attributed-some ledger alternates,
      attributed-same ledger found alternates e,
      same_totals-zero found ledger,
    )
  ]
]
