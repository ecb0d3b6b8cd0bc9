-- ===== src/Sweep/Gate.antt =====
-- run.py, `main`: the checks of the whole matrix before the first run. Whether the endpoint is on this
-- machine is given (`is_loopback_endpoint`).
pub mod Sorted
pub mod Passed
use Prim.Native.Char.{Char}
use Prim.Native.String
use model_eval.Prelude.{
  ℕ, suc, String, Bool, true, false, not, ◌&&◌, Option, none, some, List, [], ◌∷◌, ◌++◌, map,
  string_key, ◌=?◌, contains, or_else, if◌then◌else◌, Result, ok, err, ◌>>=◌, ◌>>◌, raise_if,
}
use model_eval.Registry.{resolve_model, check_effort, model_family}
use model_eval.ServingRegistry.{
  Scalar, ServingRow, ServingError, require_driver, structurally_impossible, key_error, type_error,
}
use model_eval.ServingRegistry.Gate.{check_dispatch}
use model_eval.Sweep.{
  Run, Defaults, SweepError, from_registry, from_serving, resolve_timeout_s,
  driver_has_dispatch_path, off_machine, driver_unsupported, serving,
}

abbrev pub local_id_suffix : String
local_id_suffix = "-local"

-- The text before a suffix, if the text ends with it.
unfoldable pub before_suffix : String → String → Option String
before_suffix suffix String.[] = if suffix =? "" then some "" else none
before_suffix suffix (String.◌∷◌ c rest) =
    let later = before_suffix suffix rest in
    if String.◌∷◌ c rest =? suffix
    then some ""
    else elim later [ none ↦ none | some front ↦ some (String.◌∷◌ c front) ]

unfoldable pub serving_model_name : String → String
unfolding before_suffix
serving_model_name model_id = or_else (before_suffix local_id_suffix model_id) model_id

abbrev pub models_with_rows : List ServingRow → List String
models_with_rows rows = map (λ row. row.model) rows

unfoldable pub check_local_endpoint : String → Bool → Result SweepError (Unit {0})
check_local_endpoint model is_loopback = do
  family ← from_registry (model_family model)
  raise_if (family =? "local" && not is_loopback) (off_machine model)

-- What every run of a sweep is checked against.
pub record Checks : Type 0 where
  pub rows : List ServingRow
  pub requested : List (String × Scalar)
  pub defaults : Defaults
  pub is_loopback : Bool

-- The serving checks of a run, if its model has a row; the answer is whether it has.
abbrev pub check_serving : Checks → String → Run → Result SweepError Bool
check_serving c row_model run =
    if contains row_model (models_with_rows c.rows)
    then (do
      driver ← from_serving (require_driver run.driver row_model)
      row ← from_serving (check_dispatch c.rows row_model driver c.requested run.harness_level none)
      ok true)
    else ok false

-- The body of the `try`: whether the run was gated.
unfoldable pub check_run : Checks → Run → Result SweepError Bool
unfolding serving_model_name check_local_endpoint
check_run c run = do
  r ← from_registry (resolve_model run.model)
  from_registry (check_effort run.model run.effort)
      >> (resolve_timeout_s run.task c.defaults >>= λ timeout_s.
          (check_local_endpoint run.model c.is_loopback >> (do
            gated ← check_serving c (serving_model_name r.0) run
            raise_if (not (driver_has_dispatch_path run.driver)) driver_unsupported
            ok gated)))

-- The three `except` clauses, in their order. An exception that is no ValueError leaves the loop.
pub data Fate : Type 0 where
  runs : Bool → Fate
  impossible unsupported : Fate
  bad : SweepError → Fate
  escapes : SweepError → Fate

abbrev pub fate_of_error : SweepError → Fate
fate_of_error (serving structurally_impossible) = impossible
fate_of_error (serving (key_error key)) = escapes (serving (key_error key))
fate_of_error (serving (type_error key)) = escapes (serving (type_error key))
fate_of_error driver_unsupported = unsupported
fate_of_error e = bad e

abbrev pub fate_of : Result SweepError Bool → Fate
fate_of (ok gated) = runs gated
fate_of (err e) = fate_of_error e

abbrev pub fate : Checks → Run → Fate
fate c run = fate_of (check_run c run)

-- The lists and the two counts of the loop.
pub record Sorting : Type 0 where
  pub bad_runs : List (String × SweepError)
  pub impossible_runs : List Run
  pub unsupported_runs : List Run
  pub gated : ℕ
  pub ungated : ℕ

abbrev pub unsorted : Sorting
unsorted = record {
  bad_runs = [];
  impossible_runs = [];
  unsupported_runs = [];
  gated = 0;
  ungated = 0;
}

unfoldable pub add_fate : Run → Fate → Sorting → Result SweepError Sorting
add_fate run (runs true) s = ok (record s { gated = suc s.gated })
add_fate run (runs false) s = ok (record s { ungated = suc s.ungated })
add_fate run impossible s = ok (record s { impossible_runs = s.impossible_runs ++ run ∷ [] })
add_fate run unsupported s = ok (record s { unsupported_runs = s.unsupported_runs ++ run ∷ [] })
add_fate run (bad e) s = ok (record s { bad_runs = s.bad_runs ++ (run.run_id, e) ∷ [] })
add_fate run (escapes e) s = err e

unfoldable pub sort_runs : (Run → Fate) → List Run → Sorting → Result SweepError Sorting
unfolding add_fate
sort_runs fate [] s = ok s
sort_runs fate (run ∷ rest) s = add_fate run (fate run) s >>= sort_runs fate rest
