-- ===== src/ServingRegistry/Gate.antt =====
-- serving_registry.py, the gate: a run's declared serving config against the row that it is reported under.
pub mod Agrees
pub mod Comparable
use model_eval.Prelude.{
  ℕ, suc, String, Bool, true, false, not, ◌&&◌, ◌||◌, Option, none, some, List, [], ◌∷◌, ◌++◌,
  string_key, ◌=?◌, lookup, contains, is_some, ltb, length, if◌then◌else◌, Result, ok, err, ◌>>=◌,
  ◌>>◌, raise_if,
}
use model_eval.Prelude.Int.{ℤ, pos, ltb_ℤ}
use model_eval.ServingRegistry.{
  Scalar, same_scalar, is_unknown, number_of, serving_fields, floor_fields, pinned_name, ServingRow,
  Diff, Problem, ServingError, item, find_row, not_a_number, type_error, uninspected_config,
  mismatch, not_comparable, not_pinned, structurally_impossible, unknown_capability, below_floor,
  differs, unmeasured, differing, no_noise_probe, is_empty,
}

-- `want < have`, where a floor that is no number raises a TypeError.
abbrev pub compare_floor : String → Scalar → Scalar → Result ServingError (Option Diff)
compare_floor field want have = elim (number_of want) [
  | none ↦ err (not_a_number field want)
  | some w ↦ elim (number_of have) [
    | none ↦ err (type_error field)
    | some h ↦ ok (if ltb_ℤ w h then some (below_floor field want have) else none)
  ]
]

abbrev pub compare_pinned : String → Scalar → Scalar → Result ServingError (Option Diff)
compare_pinned field want have =
    if contains field floor_fields
    then compare_floor field want have
    else ok (if same_scalar have want then none else some (differs field have want))

-- One round of the loop of `check_run_config`, on the row's serving config.
abbrev pub compare_field :
    List (String × Scalar) → String × Scalar → Result ServingError (Option Diff)
compare_field serving (key, want) = do
  raise_if (not (contains (pinned_name key) serving_fields)) (not_pinned (pinned_name key))
  have ← item (pinned_name key) serving
  compare_pinned (pinned_name key) want have

abbrev pub add_diff : Option Diff → List Diff → List Diff
add_diff none diffs = diffs
add_diff (some d) diffs = d ∷ diffs

unfoldable pub run_diffs :
    List (String × Scalar) → List (String × Scalar) → Result ServingError (List Diff)
run_diffs serving [] = ok []
run_diffs serving (r ∷ requested) = do
  d ← compare_field serving r
  diffs ← run_diffs serving requested
  ok (add_diff d diffs)

abbrev pub refuse_diffs : List Diff → ℕ → Result ServingError ℕ
refuse_diffs [] n = ok n
refuse_diffs (d ∷ diffs) n = err (mismatch (d ∷ diffs))

unfoldable pub check_run_config : ServingRow → List (String × Scalar) → Result ServingError ℕ
unfolding run_diffs
check_run_config row requested = do
  raise_if (is_empty requested) uninspected_config
  diffs ← run_diffs row.serving requested
  refuse_diffs diffs (length requested)

abbrev pub field_problem : String → Scalar → Scalar → Option Problem
field_problem field a b =
    if is_unknown a || is_unknown b
    then some (unmeasured field)
    else if same_scalar a b
    then none
    else some (differing field)

abbrev pub add_problem : Option Problem → List Problem → List Problem
add_problem none problems = problems
add_problem (some p) problems = p ∷ problems

-- The loop over the fields.
unfoldable pub field_problems :
    List String
    → List (String × Scalar)
    → List (String × Scalar)
    → Result ServingError (List Problem)
field_problems [] a b = ok []
field_problems (field ∷ fields) a b = do
  x ← item field a
  y ← item field b
  problems ← field_problems fields a b
  ok (add_problem (field_problem field x y) problems)

abbrev pub probe_problem : ServingRow → List Problem
probe_problem row = elim row.noise_probe [
  | none ↦ no_noise_probe row.model row.driver ∷ []
  | some _ ↦ []
]

abbrev pub refuse_problems : List Problem → Result ServingError (Unit {0})
refuse_problems [] = ok tt
refuse_problems (p ∷ problems) = err (not_comparable (p ∷ problems))

unfoldable pub check_comparable : ServingRow → ServingRow → Result ServingError (Unit {0})
unfolding field_problems
check_comparable a b = do
  problems ← field_problems serving_fields a.serving b.serving
  refuse_problems (problems ++ probe_problem a ++ probe_problem b)

-- `caps[capability] is False`
abbrev pub is_false : Scalar → Bool
is_false (Scalar.flag b) = not b
is_false _ = false

abbrev pub check_capability :
    List (String × Scalar) → Option String → Result ServingError (Unit {0})
check_capability caps none = ok tt
check_capability caps (some capability) = elim (lookup capability caps) [
  | none ↦ err (unknown_capability capability)
  | some v ↦ raise_if (is_false v) structurally_impossible
]

abbrev pub check_level : ℕ → Option ℕ → Result ServingError (Unit {0})
check_level ceiling none = ok tt
check_level ceiling (some level) = raise_if (ltb ceiling level) structurally_impossible

unfoldable pub check_cell_expressible :
    ServingRow → Option String → Option ℕ → Result ServingError (Unit {0})
check_cell_expressible row capability harness_level =
    check_capability row.capabilities capability >> check_level row.max_harness_level harness_level

unfoldable pub check_dispatch :
    List ServingRow
    → String
    → String
    → List (String × Scalar)
    → Option ℕ
    → Option String
    → Result ServingError ServingRow
unfolding check_run_config check_cell_expressible
check_dispatch rows model driver requested harness_level capability = do
  row ← find_row rows model driver
  check_cell_expressible row capability harness_level
  n ← check_run_config row requested
  ok row
