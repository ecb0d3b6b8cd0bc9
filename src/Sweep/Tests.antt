-- ===== src/Sweep/Tests.antt =====
-- run.py at concrete inputs.
use model_eval.Prelude.{
  ◌+◌, ◌≤◌, ◌≡◌, ◌≢◌, refl, arith, String, Bool, true, false, Option, none, some, List, [], ◌∷◌,
  map, keep, count_of, string_key, eq_iff, ◌=?◌, is_some, if◌then◌else◌, ok,
}
use model_eval.Prelude.Int.{pos}
use model_eval.Json.{Json, Fields, get, has_type, fields_of, get_count, count_of_json}
use model_eval.Registry.{Spec, claude_tiers, resolve_model, is_metered, model_family, check_effort}
use model_eval.Broker.{resolve_k}
use model_eval.RunStatus.{in_denominator}
use model_eval.UsageLedger.{parse_branch, invocation_mode}
use model_eval.UsageLedger.Parse.{parse_usage_detailed, claude_object, first_result, claude_usage}
use model_eval.ServingRegistry.{Scalar, ServingRow, find_row, require_driver}
use model_eval.ServingRegistry.Gate.{
  check_dispatch, check_cell_expressible, check_run_config, run_diffs,
}
use model_eval.Sweep.{
  Run, Defaults, ResultRow, as_row, Corpus, resolve_timeout_s, read_tier, ids_with,
  driver_has_dispatch_path,
}
use model_eval.Sweep.Command.{build_cli_cmd}
use model_eval.Sweep.Execute.{
  Outside, Session, run_session, result_row, usage_row_of, is_mock, execute_run, status_row_of,
}
use model_eval.Sweep.Execute.Honest.{IsHonest, execute_run-IsHonest, execute_run-passed}
use model_eval.Sweep.Gate.{
  Checks, Fate, runs, unsupported, Sorting, unsorted, add_fate, sort_runs, check_local_endpoint,
  serving_model_name, before_suffix, check_run,
}
use model_eval.Sweep.Gate.Sorted.{
  is_impossible, is_unsupported, is_bad, is_gated, is_ungated, bad_ids, sort_runs-IsSorted,
}
use model_eval.Sweep.Gate.Passed.{IsGatedBy, check_run-gated}
use model_eval.Sweep.Invoke.{
  Options, begin, record_cells, run_metered, run_one, run_pending, invoke,
}
use model_eval.Sweep.Invoke.Resume.{IsInvocation, invoke-IsInvocation}
use model_eval.Sweep.Invoke.Complete.{seen, run_pending_complete}
use model_eval.Sweep.Invoke.Again.{invoke-settled}
use model_eval.Sweep.Invoke.Board.{Allowed, attempt_all}
use model_eval.Sweep.Invoke.Refine.{board_of, Call, call_all, call_all-refines}

abbrev opus_run : Run
opus_run = record {
  run_id = "s--opus--high--bare--t4-a--r1";
  sweep = "s";
  model = "claude-opus-5";
  effort = some "high";
  harness = false;
  driver = none;
  harness_level = none;
  task = "t4-a";
  rep = 1;
}

abbrev pi_run : Run
pi_run = record opus_run { run_id = "s--opus--high--bare--t4-a--r2"; driver = some "pi"; rep = 2 }

abbrev glm_run : Run
glm_run = record opus_run {
  model = "glm-4.7-local";
  driver = some "claude-code";
  harness_level = some 3;
}

abbrev defaults : Defaults
defaults = record {
  turn_cap_n = none;
  of_tier = (4, 3600) ∷ [];
  t1_t2 = some 900;
  other = none;
  k_acceptance = some (pos 20);
}

abbrev tokens : Fields
tokens =
    Fields.field "input_tokens" (Json.num 40) (Fields.field "output_tokens" (Json.num 9) Fields.end)

abbrev loads : String → Option Json
loads s = some (
    Json.obj (
      Fields.field "type" (Json.text "result") (
        Fields.field "num_turns" (Json.num 3) (Fields.field "usage" (Json.obj tokens) Fields.end))))

abbrev outside : Outside
outside = record {
  ts = "2026-09-01T00:00:00Z";
  mock = none;
  broker_enabled = true;
  seal_enabled = true;
  write_containment = true;
  home_isolated = true;
  prompt = "fix it";
  answer = λ cmd timeout_s. ("{}", "ok", 120);
  loads = loads;
  lines = λ out. out ∷ [];
  is_blank = λ line. line =? "";
  requests = 4;
  patch_applies = true;
  tamper_files = [];
  verdict = some true;
  loc = 12;
}

task_cap : resolve_timeout_s "t4-a" defaults ≡ ok 3600
unfolding resolve_timeout_s read_tier
task_cap = refl

abbrev pinned_config : List (String × Scalar)
pinned_config =
    ("parallel", Scalar.int (pos 1))
    ∷ ("context_length", Scalar.int (pos 131072))
    ∷ ("max_tokens_floor", Scalar.int (pos 16384))
    ∷ ("temperature", Scalar.int (pos 0))
    ∷ ("seed", Scalar.int (pos 42))
    ∷ ("quant", Scalar.text "4bit")
    ∷ []

abbrev glm_row : ServingRow
glm_row = record {
  model = "glm-4.7";
  driver = "claude-code";
  serving = pinned_config;
  capabilities = [];
  max_harness_level = 5;
  deterministic_loops = false;
  noise_probe = none;
  reasoning_probe = none;
  permission = record { mode = "default"; authorization = none; authorized_date = none };
  prefill_tok_s_min = 57;
  prefill_tok_s_max = 71;
  client_timeout_ms = none;
}

abbrev checks : Checks
checks = record {
  rows = glm_row ∷ [];
  requested = pinned_config;
  defaults = defaults;
  is_loopback = true;
}

gate_passes : check_run checks glm_run ≡ ok true
unfolding check_run resolve_model check_effort resolve_timeout_s read_tier check_local_endpoint
    model_family serving_model_name before_suffix require_driver check_dispatch find_row
    check_cell_expressible check_run_config run_diffs
gate_passes = refl

check_run-gated_example :
    (r : String × Spec) × (driver : String) × (row : ServingRow) × (resolve_model glm_run.model
      ≡ ok r)
    × (driver_has_dispatch_path glm_run.driver ≡ true)
    × IsGatedBy checks glm_run (serving_model_name r.0) driver row
check_run-gated_example = check_run-gated checks glm_run gate_passes

abbrev session : Session
session = record {
  reason = "ok";
  tokens_in = 40;
  tokens_out = 9;
  turns = 3;
  wall_s = 120;
  usage_detail = some (record {
    tokens_in = 40;
    tokens_out = 9;
    cache_read_tokens = 0;
    cache_creation_tokens = 0;
    turns = 3;
  });
  invocation_mode = some (invocation_mode "claude");
  sealed = some true;
  write_contained = some true;
  home_isolated = some true;
}

abbrev opus : String × Spec
opus = ("claude-opus-5", record { family = "claude"; efforts = claude_tiers; metered = false })

abbrev opus_row : ResultRow
opus_row = result_row outside opus_run opus (some true, some 20) session

executes :
    execute_run outside opus_run defaults
    ≡ ok (opus_row, some (usage_row_of opus_row "claude" session))
unfolding execute_run resolve_timeout_s read_tier run_session build_cli_cmd resolve_model
    check_effort model_family resolve_k parse_usage_detailed parse_branch claude_object first_result
    claude_usage has_type fields_of get_count count_of_json get
executes = refl

execute_run-IsHonest_example : IsHonest opus_run opus_row
execute_run-IsHonest_example =
    execute_run-IsHonest outside opus_run defaults opus_row
      (some (usage_row_of opus_row "claude" session)) executes

execute_run-passed_example :
    (is_mock outside ≡ false)
    × (opus_row.turns ≢ some 0)
    × (opus_row.cap_exhausted ≡ false)
    × (in_denominator (as_row opus_row) ≡ true)
execute_run-passed_example =
    execute_run-passed outside opus_run defaults opus_row
      (some (usage_row_of opus_row "claude" session)) executes refl

abbrev matrix : List Run
matrix = opus_run ∷ pi_run ∷ []

abbrev fate_by_driver : Run → Fate
fate_by_driver run = if is_some run.driver then unsupported else runs false

abbrev sorted : Sorting
sorted = record unsorted { unsupported_runs = pi_run ∷ []; ungated = 1 }

sorts_matrix : sort_runs fate_by_driver matrix unsorted ≡ ok sorted
unfolding sort_runs add_fate
sorts_matrix = refl

sort_runs-IsSorted_example :
    (sorted.impossible_runs ≡ keep (λ run. is_impossible (fate_by_driver run)) matrix)
    × (sorted.unsupported_runs ≡ keep (λ run. is_unsupported (fate_by_driver run)) matrix)
    × (bad_ids sorted.bad_runs
        ≡ map (λ run. run.run_id) (keep (λ run. is_bad (fate_by_driver run)) matrix))
    × (sorted.gated ≡ count_of (λ run. is_gated (fate_by_driver run)) matrix)
    × (sorted.ungated ≡ count_of (λ run. is_ungated (fate_by_driver run)) matrix)
sort_runs-IsSorted_example = sort_runs-IsSorted fate_by_driver matrix sorted sorts_matrix

abbrev options : Options
options = record {
  limit = none;
  max_usd = some 5000000;
  dry_run = false;
  mock = some "1";
  broker_enabled = true;
}

abbrev no_rows : Corpus
no_rows = record { results = []; usage = [] }

invoke-IsInvocation_example :
    IsInvocation
      (some 5000000)
      matrix
      no_rows
      (invoke options checks (λ run. outside) matrix no_rows).state
invoke-IsInvocation_example = invoke-IsInvocation options checks (λ run. outside) matrix no_rows

abbrev call : Call
call = record { opts = options; checks = checks; meets = λ run. outside }

distinct : (id : String) → count_of (λ run. run.run_id =? id) matrix ≤ 1
distinct id = ground (
  arith,
  eq_iff "s--opus--high--bare--t4-a--r1" id,
  eq_iff "s--opus--high--bare--t4-a--r2" id,
  eq_iff "s--opus--high--bare--t4-a--r1" "s--opus--high--bare--t4-a--r2",
)

call_all-refines_example :
    let (attempts, end) = call_all matrix (call ∷ call ∷ []) no_rows in
    Allowed (board_of no_rows) attempts × (board_of end ≡ attempt_all attempts (board_of no_rows))
call_all-refines_example = call_all-refines matrix (call ∷ call ∷ []) no_rows distinct

loop_goes : (run_pending options checks (λ run. outside) matrix (begin no_rows)).stopped ≡ none
unfolding run_pending run_one run_metered is_metered execute_run status_row_of resolve_timeout_s
    read_tier run_session build_cli_cmd resolve_model check_effort model_family resolve_k
    parse_usage_detailed parse_branch claude_object first_result claude_usage has_type fields_of
    get_count count_of_json get
loop_goes = refl

run_pending_complete_example :
    ((begin no_rows).stopped ≡ none)
    × ((p : Run → Bool)
        → seen p (run_pending options checks (λ run. outside) matrix (begin no_rows))
          ≡ seen p (begin no_rows) + count_of p matrix)
run_pending_complete_example =
    run_pending_complete options checks (λ run. outside) matrix (begin no_rows) loop_goes

-- The second run has no launch code, so it is recorded.
invocation_goes : (invoke options checks (λ run. outside) matrix no_rows).state.stopped ≡ none
unfolding invoke record_cells run_pending run_one run_metered is_metered execute_run status_row_of
    resolve_timeout_s read_tier run_session build_cli_cmd resolve_model check_effort model_family
    resolve_k sort_runs add_fate check_run check_local_endpoint serving_model_name before_suffix
    require_driver check_dispatch find_row check_cell_expressible check_run_config run_diffs
    ids_with
invocation_goes = refl

records_once :
    map (λ row. row.run_id) (invoke options checks (λ run. outside) matrix no_rows).state.recorded
    ≡ "s--opus--high--bare--t4-a--r2" ∷ []
unfolding invoke record_cells run_pending run_one run_metered is_metered execute_run status_row_of
    resolve_timeout_s read_tier run_session build_cli_cmd resolve_model check_effort model_family
    resolve_k sort_runs add_fate check_run check_local_endpoint serving_model_name before_suffix
    require_driver check_dispatch find_row check_cell_expressible check_run_config run_diffs
    ids_with
records_once = refl

invoke-settled_example :
    (invoke options checks
      (λ run. outside)
      matrix
      (invoke options checks (λ run. outside) matrix no_rows).state.corpus).state.recorded
    ≡ []
invoke-settled_example =
    invoke-settled options options checks (λ run. outside) (λ run. outside) matrix no_rows
      invocation_goes
