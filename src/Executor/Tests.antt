-- ===== src/Executor/Tests.antt =====
-- executor.py: a run of two tasks under a cap that covers one, in a world made up for it.
use model_eval.Prelude.{
  ◌≡◌, ◌≢◌, refl, true, inl, none, some, String, List, [], ◌∷◌, ◌++◌, map, arith, string_key, ◌=?◌,
  all_of, lookup, length, if◌then◌else◌, ok,
}
use model_eval.Prelude.Int.{pos, ◌-ℤ◌}
use model_eval.Prelude.Text.{◌+++◌}
use model_eval.Json.{Json, Fields, get, has_type, fields_of, count_of_json, get_count}
use model_eval.Registry.{resolve_model}
use model_eval.UsageLedger.{parse_branch, usd_estimate}
use model_eval.UsageLedger.Parse.{
  UsageDetail, first_result, claude_object, claude_usage, parse_usage_detailed,
}
use model_eval.UsageLedger.Entry.{UsageRow}
use model_eval.SpendCap.{
  SpendError, Authorization, metering_capability, observe, authorize, cost_of,
}
use model_eval.Executor.{
  World, RunRequest, RunReport, TaskOutcome, TaskStatus, TaskReason, execute, run_tasks, run_task,
  invoke_task, account, invocation_env, kimi_path, ran_outcome, not_run,
}
use model_eval.Executor.Account.{ran_ids, row_ids, cost_of_rows, sum_usd}
use model_eval.Executor.Environment.{invocation_env-lookup}
use model_eval.Executor.Loop.{execute-accounts}
use model_eval.Executor.Money.{AreFunded, stops_once, is_supported, execute-capped}
use model_eval.Executor.Gate.{execute-gated}

abbrev usage : Json
usage = Json.obj (
    Fields.field "input_tokens" (Json.num 10000)
      (Fields.field "output_tokens" (Json.num 0) Fields.end))

abbrev result_object : Json
result_object =
    Json.obj (Fields.field "type" (Json.text "result") (Fields.field "usage" usage Fields.end))

-- A command that always answers with one result object.
abbrev world : World String
world = record {
  digest = λ model tasks cap. model +++ "@";
  prompt = λ dir task. some task;
  environ = ("PATH", "/bin") ∷ ("ANTHROPIC_API_KEY", "of the host") ∷ [];
  invoke = λ n cmd env. some "result";
  elapsed = λ n. 7;
  now = λ n. "2026-08-01T00:00:00+00:00";
  random_prefix = "p";
  loads = λ out. if out =? "result" then some result_object else none;
  lines = λ out. out ∷ [];
  is_blank = λ out. out =? "";
}

abbrev request : RunRequest
request = record {
  model = "kimi";
  task_ids = "a" ∷ "b" ∷ [];
  api_key = "key";
  cap_usd = some (pos 12000000);
  tasks_dir = "tasks";
  effort = "medium";
  run_id_prefix = none;
}

abbrev consumed : UsageDetail
consumed = record {
  tokens_in = 10000;
  tokens_out = 0;
  cache_read_tokens = 0;
  cache_creation_tokens = 0;
  turns = 0;
}

abbrev report : RunReport
report = record {
  model_id = "kimi-k3";
  family = "kimi";
  cap_usd = some (pos 12000000);
  spent_usd = 3000000;
  outcomes =
      ran_outcome world request "kimi-k3" "kimi" "p" "a" 0 consumed 3000000
      ∷ not_run "b" "kimi-k3" TaskStatus.refused
          (TaskReason.spend_refused (SpendError.under_floor "kimi-k3" "kimi" (pos 9000000) 9838500))
      ∷ [];
  ledger_rows_written = 1;
  effort = "medium";
}

served :
    let e = execute world request (some "kimi@") [] in (e.report ≡ ok report) × (e.invocations ≡ 1)
unfolding execute run_tasks run_task invoke_task account authorize metering_capability observe
    resolve_model usd_estimate cost_of invocation_env parse_usage_detailed claude_object
    first_result claude_usage parse_branch has_type fields_of get_count count_of_json get ◌-ℤ◌
served = (refl, refl)

execute-capped_example :
    AreFunded request 0 report.outcomes
    × (stops_once report.outcomes ≡ true)
    × (all_of is_supported report.outcomes ≡ true)
execute-capped_example = execute-capped world request (some "kimi@") [] report served.0

execute-accounts_example :
    (map (λ (o : TaskOutcome). o.task_id) report.outcomes ≡ request.task_ids)
    × (report.spent_usd ≡ sum_usd report.outcomes)
    × ((rows : List UsageRow) × ((execute world request (some "kimi@") []).ledger ≡ [] ++ rows)
        × (row_ids rows ≡ ran_ids report.outcomes)
        × (report.ledger_rows_written ≡ length rows)
        × (report.spent_usd ≡ cost_of_rows rows))
execute-accounts_example = execute-accounts world request (some "kimi@") [] report served.0

invoked : (execute world request (some "kimi@") []).invocations ≢ 0
invoked h = omega (arith, h, served.1)

execute-gated_example :
    (some "kimi@" ≡ some (world.digest request.model request.task_ids request.cap_usd))
    × ((a : Authorization) × (authorize request.model request.cap_usd (pos 0) ≡ ok a))
    × (request.api_key ≢ "")
execute-gated_example = execute-gated world request (some "kimi@") [] (inl invoked)

abbrev child_env : List (String × String)
child_env =
    ("PATH", "/bin")
    ∷ ("ANTHROPIC_BASE_URL", "https://api.moonshot.ai/anthropic")
    ∷ ("ANTHROPIC_API_KEY", "key")
    ∷ ("ANTHROPIC_AUTH_TOKEN", "key")
    ∷ []

env_built : invocation_env kimi_path "key" world.environ ≡ ok child_env
unfolding invocation_env
env_built = refl

-- The key of the host does not reach the child.
invocation_env-lookup_example :
    (◌≢◌ {A = String} "key" "") × (lookup "ANTHROPIC_API_KEY" child_env ≡ some "key")
invocation_env-lookup_example =
    invocation_env-lookup kimi_path "key" world.environ child_env "ANTHROPIC_API_KEY" env_built
