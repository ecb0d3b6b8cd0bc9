-- ===== src/RunStatus/Tests.antt =====
-- run_status.py: four rows, of which two are in the denominator before a cap of ten turns and one after.
use model_eval.Prelude.{
  ℕ, ◌≡◌, ◌≢◌, ◌↔◌, not, some, String, List, [], ◌∷◌, keep, tallied, count_of, All,
}
use model_eval.Prelude.Text.{split_on}
use model_eval.Rows.{Row, blank}
use model_eval.RunStatus.{
  StatusClass, class_key, status_class, parts, partition_for_rate, apply_turn_cap,
}
use model_eval.RunStatus.Class.{status_class-eq-scored, IsScored}
use model_eval.RunStatus.Rate.{partition-tallied, excluded_as}
use model_eval.RunStatus.TurnCap.{capped-kept, over}

abbrev row : String → ℕ → Row
row reason turns = record blank { exit_reason = some reason; turns = some turns }

abbrev rows : List Row
rows = row "ok" 3 ∷ row "ok" 12 ∷ row "timeout" 5 ∷ row "verify_timeout+turn_cap" 50 ∷ []

partition-tallied_example :
    tallied StatusClass.timeout (partition_for_rate rows).1
    ≡ count_of (excluded_as StatusClass.timeout) rows
partition-tallied_example = partition-tallied rows StatusClass.timeout

capped-kept_example :
    (partition_for_rate (apply_turn_cap rows (some 10))).0
    ≡ keep (λ row. not (over 10 row)) (partition_for_rate rows).0
capped-kept_example = capped-kept rows 10

has_parts : (parts "ok" ≢ []) × (parts "turn_cap" ≢ [])
unfolding parts split_on
has_parts = (λ h. cc, λ h. cc)

status_class-eq-scored_example :
    (status_class (some "ok+cap_exhausted") ≡ StatusClass.scored)
    ↔ ((parts "ok+cap_exhausted" ≢ []) × All IsScored (parts "ok+cap_exhausted"))
status_class-eq-scored_example = status_class-eq-scored "ok+cap_exhausted"
