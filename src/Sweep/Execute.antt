-- ===== src/Sweep/Execute.antt =====
-- run.py, `execute_run` and the two status rows. What a run meets outside of this code is
-- given: the environment, the answer of `run_cli`, of the patch, the grader and the tree it leaves.
pub mod Honest
use model_eval.Prelude.{
  ℕ, ◌+◌, ◌*◌, String, Bool, true, false, not, ◌&&◌, ◌||◌, Option, none, some, List, [], ◌∷◌, ◌++◌,
  string_key, ◌=?◌, ◌==◌, is_some, contains, or_else, if◌then◌else◌, Result, ok, err, ◌>>=◌, ◌>>◌,
  raise_if,
}
use model_eval.Prelude.Text.{◌+++◌}
use model_eval.Json.{Json}
use model_eval.Registry.{RegistryError, Spec, resolve_model, check_effort, model_family}
use model_eval.RunStatus.{StatusClass, status_class}
use model_eval.UsageLedger.{
  UndeclaredFamily, usage_parser_version, invocation_mode, tokens_in_status,
}
use model_eval.UsageLedger.Parse.{UsageDetail, parse_usage_detailed}
use model_eval.UsageLedger.Entry.{UsageRow, build_usage_row}
use model_eval.Broker.{KError, resolve_k}
use model_eval.Sweep.Command.{is_given, build_cli_cmd}
use model_eval.Sweep.{
  Run, Defaults, SweepError, ResultRow, as_row, driver_has_dispatch_path, from_registry,
  resolve_timeout_s, usage, bad_k, unknown_family, no_dispatch_path, unreadable_usage,
}

-- What a run meets. `mock` is GAUNTLET_MOCK; `answer` is what `run_cli` gives for a command: the output,
-- the exit reason and the seconds; `verdict` is the grader's, or nothing where it ran out of time.
pub record Outside : Type 0 where
  pub ts : String
  pub mock : Option String
  pub broker_enabled : Bool
  pub seal_enabled : Bool
  pub write_containment : Bool
  pub home_isolated : Bool
  pub prompt : String
  pub answer : List String → ℕ → String × String × ℕ
  pub loads : String → Option Json
  pub lines : String → List String
  pub is_blank : String → Bool
  pub requests : ℕ
  pub patch_applies : Bool
  pub tamper_files : List String
  pub verdict : Option Bool
  pub loc : ℕ

-- The locals of `execute_run` after the model's turn.
pub record Session : Type 0 where
  pub reason : String
  pub tokens_in : ℕ
  pub tokens_out : ℕ
  pub turns : ℕ
  pub wall_s : ℕ
  pub usage_detail : Option UsageDetail
  pub invocation_mode : Option String
  pub sealed : Option Bool
  pub write_contained : Option Bool
  pub home_isolated : Option Bool

abbrev pub mock_session : String → Session
mock_session reason = record {
  reason = reason;
  tokens_in = 0;
  tokens_out = 0;
  turns = 0;
  wall_s = 0;
  usage_detail = none;
  invocation_mode = none;
  sealed = none;
  write_contained = none;
  home_isolated = none;
}

abbrev pub mock_reason : String → Bool → String
mock_reason mock applies =
    if mock =? "fail" then "mock_fail" else if applies then "mock" else "mock_patch_failed"

-- A CLI that exits 0 and completed no turn did not finish.
abbrev pub completed_reason : String → ℕ → String
completed_reason reason turns = if reason =? "ok" && turns == 0 then "no_completion" else reason

abbrev pub cli_session : Outside → String → String × ℕ → UsageDetail → Session
cli_session o family (reason, wall_s) d = record {
  reason = completed_reason reason d.turns;
  tokens_in = d.tokens_in;
  tokens_out = d.tokens_out;
  turns = d.turns;
  wall_s = wall_s;
  usage_detail = some d;
  invocation_mode = some (invocation_mode family);
  sealed = some o.seal_enabled;
  write_contained = some (o.seal_enabled && o.write_containment);
  home_isolated = some o.home_isolated;
}

-- `none` of the parser is an exception of another kind.
abbrev pub detail_or_raise :
    Result UndeclaredFamily (Option UsageDetail) → Result SweepError UsageDetail
detail_or_raise (err e) = err (usage e)
detail_or_raise (ok none) = err unreadable_usage
detail_or_raise (ok (some d)) = ok d

abbrev pub is_mock : Outside → Bool
is_mock o = is_given o.mock

unfoldable pub run_session : Outside → Run → ℕ → Result SweepError Session
unfolding build_cli_cmd
run_session o run timeout_s =
    if is_mock o then ok (mock_session (mock_reason (or_else o.mock "") o.patch_applies)) else do
      cmd ← build_cli_cmd run.model run.effort o.prompt run.driver
      family ← from_registry (model_family run.model)
      let (out, reason, wall_s) = o.answer cmd timeout_s
      detail ← detail_or_raise (parse_usage_detailed o.loads o.lines o.is_blank family out)
      ok (cli_session o family (reason, wall_s) detail)

-- `brokered` and the cap of a run.
abbrev pub k_or_raise : Result KError ℕ → Result SweepError (Option ℕ)
k_or_raise (ok k) = ok (some k)
k_or_raise (err e) = err (bad_k e)

abbrev pub broker_cap : Outside → Defaults → Result SweepError (Option Bool × Option ℕ)
broker_cap o defaults =
    if is_mock o
    then ok (none, none)
    else if o.broker_enabled
    then (do k ← k_or_raise (resolve_k defaults.k_acceptance); ok (some true, k))
    else ok (some false, none)

-- The exit reason after the grader.
abbrev pub graded_reason : String → Option Bool → String
graded_reason reason none = reason +++ "+verify_timeout"
graded_reason reason (some verdict) = reason

abbrev pub gated_pass : String → Option Bool → Bool
gated_pass reason verdict = if reason =? "ok" then or_else verdict false else false

abbrev pub is_nonempty : List String → Bool
is_nonempty [] = false
is_nonempty (f ∷ files) = true

-- The row of a run that was executed. The provenance of the invocation is not modelled.
abbrev pub result_row : Outside → Run → String × Spec → Option Bool × Option ℕ → Session → ResultRow
result_row o run (mid, spec) (brokered, k) s =
    let reason = graded_reason s.reason o.verdict in
    record {
      run_id = run.run_id;
      ts = o.ts;
      sweep = run.sweep;
      model = run.model;
      model_id = mid;
      effort = run.effort;
      harness = run.harness;
      driver = run.driver;
      harness_level = run.harness_level;
      task = run.task;
      rep = run.rep;
      passed = some (gated_pass reason o.verdict);
      tokens_in = some s.tokens_in;
      tokens_out = some s.tokens_out;
      wall_s = some s.wall_s;
      usage_parser_version = some usage_parser_version;
      tokens_in_status = some (tokens_in_status spec.family usage_parser_version none);
      turns = some s.turns;
      loc_changed = some o.loc;
      exit_reason = reason;
      sealed = s.sealed;
      write_contained = s.write_contained;
      home_isolated = s.home_isolated;
      invocation_mode = s.invocation_mode;
      brokered = brokered;
      k_cap = k;
      acceptance_requests = if is_some k then some o.requests else none;
      cap_exhausted = reason =? "cap_exhausted";
      status = status_class (some reason);
      pass_raw = o.verdict;
      pass_at_cap = if reason =? "cap_exhausted" then o.verdict else none;
      tampered = is_nonempty o.tamper_files;
      tamper_files = o.tamper_files;
    }

-- The row of a run that was not executed.
abbrev pub status_row : String → Run → String → String → ResultRow
status_row ts run mid reason = record {
  run_id = run.run_id;
  ts = ts;
  sweep = run.sweep;
  model = run.model;
  model_id = mid;
  effort = run.effort;
  harness = run.harness;
  driver = run.driver;
  harness_level = run.harness_level;
  task = run.task;
  rep = run.rep;
  passed = none;
  tokens_in = none;
  tokens_out = none;
  wall_s = none;
  usage_parser_version = none;
  tokens_in_status = none;
  turns = none;
  loc_changed = none;
  exit_reason = reason;
  sealed = none;
  write_contained = none;
  home_isolated = none;
  invocation_mode = none;
  brokered = none;
  k_cap = none;
  acceptance_requests = none;
  cap_exhausted = false;
  status = status_class (some reason);
  pass_raw = none;
  pass_at_cap = none;
  tampered = false;
  tamper_files = [];
}

-- `record_structurally_impossible` and `record_driver_unsupported`, as the row that they append.
unfoldable pub status_row_of : String → Run → String → Result SweepError ResultRow
status_row_of ts run reason = do
  r ← from_registry (resolve_model run.model)
  ok (status_row ts run r.0 reason)

abbrev pub usage_row_of : ResultRow → String → Session → UsageRow
usage_row_of row family s =
    build_usage_row (as_row row) row.run_id family s.usage_detail (some row.model_id) "worker" none

abbrev pub dispatch_run : Outside → Run → Defaults → Result SweepError (ResultRow × Option UsageRow)
dispatch_run o run defaults = do
  timeout_s ← resolve_timeout_s run.task defaults
  cap ← broker_cap o defaults
  s ← run_session o run timeout_s
  r ← from_registry (resolve_model run.model)
  let row = result_row o run r cap s
  ok (row, some (usage_row_of row r.1.family s))

-- The rows that a call appends to the results and to the ledger, or the exception that ends it.
unfoldable pub execute_run :
    Outside → Run → Defaults → Result SweepError (ResultRow × Option UsageRow)
unfolding run_session status_row_of
execute_run o run defaults =
    if driver_has_dispatch_path run.driver
    then dispatch_run o run defaults
    else do row ← status_row_of o.ts run "driver_unsupported"; ok (row, none)
