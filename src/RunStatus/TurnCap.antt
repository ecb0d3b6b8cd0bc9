-- ===== src/RunStatus/TurnCap.antt =====
-- run_status.py, `apply_turn_cap`: what a registered cap does to the denominator.
use model_eval.Prelude.{
  ℕ, min, ◌≡◌, refl, Bool, true, false, not, Option, none, some, String, List, [], ◌∷◌, map, arith,
  ltb, ◌==◌, ◌=?◌, ◌||◌, ap, sym, if◌then◌else◌, keep, count_of, tallied, ◌∙◌,
}
use model_eval.Rows.{Row}
use model_eval.RunStatus.{
  StatusClass, severity, status_class, in_denominator, partition_for_rate, cap_row, apply_turn_cap,
  class_key,
}
use model_eval.RunStatus.Rate.{partition-kept, partition-tallied, excluded_as}

-- Whether the row's turns exceed the cap; a row with no turns exceeds nothing.
abbrev pub over : ℕ → Row → Bool
over n row = elim row.turns [ none ↦ false | some turns ↦ ltb n turns ]

cap_row-over :
    (n : ℕ) (row : Row)
    → cap_row (some n) row ≡ (
        if over n row
        then record row {
          exit_reason_pre_turn_cap = some row.exit_reason;
          exit_reason = some "turn_cap";
        }
        else row)
unfolding cap_row
cap_row-over n row = ground arith

not_scored : (severity (status_class (some "turn_cap")) == severity StatusClass.scored) ≡ false
unfolding status_class severity
not_scored = refl

capped_out :
    (row : Row) (e : Option (Option String))
    → in_denominator (record row { exit_reason_pre_turn_cap = e; exit_reason = some "turn_cap" })
      ≡ false
unfolding in_denominator
capped_out row e = not_scored

kept_of_capped :
    (n : ℕ) (rows : List Row)
    → keep in_denominator (map (cap_row (some n)) rows)
      ≡ keep (λ row. not (over n row)) (keep in_denominator rows)
kept_of_capped n [] = refl
kept_of_capped n (row ∷ rows) =
    ground (arith, cap_row-over n row, capped_out row (some row.exit_reason), kept_of_capped n rows)

-- Capping at `n` takes exactly the rows over the cap out of the denominator, changes no other row
-- of it, and leaves their order alone.
pub capped-kept :
    (rows : List Row) (n : ℕ)
    → (partition_for_rate (apply_turn_cap rows (some n))).0
      ≡ keep (λ row. not (over n row)) (partition_for_rate rows).0
unfolding apply_turn_cap
capped-kept rows n =
    partition-kept (map (cap_row (some n)) rows)
    ∙ kept_of_capped n rows
    ∙ ap (keep (λ row. not (over n row))) (sym (partition-kept rows))

-- Whether a row is over the cap, or within it and excluded as `turn_cap` already.
abbrev pub ends_as_turn_cap : ℕ → Row → Bool
ends_as_turn_cap n row = over n row || excluded_as StatusClass.turn_cap row

reclassed : (StatusClass.turn_cap =? status_class (some "turn_cap")) ≡ true
unfolding status_class severity
reclassed = refl

excluded_capped :
    (n : ℕ) (row : Row)
    → excluded_as StatusClass.turn_cap (cap_row (some n) row) ≡ ends_as_turn_cap n row
excluded_capped n row =
    ground (arith, cap_row-over n row, capped_out row (some row.exit_reason), reclassed)

count_capped :
    (n : ℕ) (rows : List Row)
    → count_of (excluded_as StatusClass.turn_cap) (map (cap_row (some n)) rows)
      ≡ count_of (ends_as_turn_cap n) rows
count_capped n [] = refl
count_capped n (row ∷ rows) = ground (arith, excluded_capped n row, count_capped n rows)

-- After capping, the tally reports under `turn_cap` the rows over the cap and those it had there
-- before.
pub capped-tallied :
    (rows : List Row) (n : ℕ)
    → tallied StatusClass.turn_cap (partition_for_rate (apply_turn_cap rows (some n))).1
      ≡ count_of (ends_as_turn_cap n) rows
unfolding apply_turn_cap
capped-tallied rows n =
    partition-tallied (map (cap_row (some n)) rows) StatusClass.turn_cap ∙ count_capped n rows

cap_row_again :
    (m n : ℕ) (row : Row)
    → (cap_row (some n) (cap_row (some m) row)).exit_reason
      ≡ (cap_row (some (min m n)) row).exit_reason
unfolding cap_row
cap_row_again m n row = ground arith

-- Capping twice gives the exit reasons of capping once at the smaller number; no
-- cap changes no row.
pub apply_turn_cap-again :
    (rows : List Row) (m n : ℕ)
    → (map (λ (row : Row). row.exit_reason) (apply_turn_cap (apply_turn_cap rows (some m)) (some n))
        ≡ map (λ (row : Row). row.exit_reason) (apply_turn_cap rows (some (min m n))))
      × (apply_turn_cap rows none ≡ rows)
unfolding apply_turn_cap cap_row
apply_turn_cap-again [] m n = (refl, refl)
apply_turn_cap-again (row ∷ rows) m n =
    ground (arith, cap_row_again m n row, apply_turn_cap-again rows m n)
