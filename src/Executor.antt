-- ===== src/Executor.antt =====
-- product/gauntlet_playground/executor.py: the product's run loop, with `fingerprint` and the
-- acknowledgement of disclosure.py. What the loop meets outside the repository is a `World`: the files,
-- the command that is run, the clocks, the random prefix, `json` and `hashlib`. The usage ledger is the
-- list of its rows, and what was appended before an exception stays. Dollar amounts are integers in the
-- units of the usage ledger.
mod Records
pub mod Environment
pub mod Account
pub mod Step
pub mod Loop
pub mod Gate
pub mod Money
mod Tests
pub use Records.*
use model_eval.Prelude.{
  ℕ, suc, ◌+◌, String, Bool, true, false, Option, none, some, List, [], ◌∷◌, ◌++◌, string_key, ◌=?◌,
  lookup, is_some, if◌then◌else◌, Result, ok, err,
}
use model_eval.Prelude.Int.{ℤ, pos}
use model_eval.Prelude.Text.{◌+++◌}
use model_eval.Json.{Json}
use model_eval.Rows.{Row, blank}
use model_eval.Registry.{RegistryError, Spec, resolve_model}
use model_eval.UsageLedger.{UndeclaredFamily}
use model_eval.UsageLedger.Parse.{UsageDetail, parse_usage_detailed}
use model_eval.UsageLedger.Entry.{UsageRow, build_usage_row}
use model_eval.SpendCap.{SpendError, CostError, authorize, cost_of}

-- `env[name] = value`
abbrev pub set_key : String → String → List (String × String) → List (String × String)
set_key name value [] = (name, value) ∷ []
set_key name value ((key, old) ∷ env) =
    if name =? key then (key, value) ∷ env else (key, old) ∷ set_key name value env

abbrev pub set_keys : List String → String → List (String × String) → List (String × String)
set_keys [] value env = env
set_keys (name ∷ names) value env = set_keys names value (set_key name value env)

-- `{name: source[name] for name in names if name in source}`
abbrev pub inherited : List String → List (String × String) → List (String × String)
inherited [] source = []
inherited (name ∷ names) source = elim (lookup name source) [
  | none ↦ inherited names source
  | some value ↦ (name, value) ∷ inherited names source
]

unfoldable pub invocation_env :
    InvocationPath → String → List (String × String) → Result ExecuteError (List (String × String))
invocation_env path api_key source =
    if api_key =? ""
    then err (ExecuteError.no_api_key path.family)
    else ok (
        set_keys path.key_env_vars api_key
          (set_key "ANTHROPIC_BASE_URL" path.base_url (inherited env_allowlist source)))

abbrev pub build_command : InvocationPath → String → String → String → List String
build_command path model_id effort prompt =
    path.binary
    ∷ "-p"
    ∷ prompt
    ∷ "--output-format"
    ∷ "json"
    ∷ "--model"
    ∷ model_id
    ∷ "--dangerously-skip-permissions"
    ∷ (if effort =? "" then [] else "--effort" ∷ effort ∷ [])

abbrev pub raise : ExecuteError → Run → Run
raise e s = record s { raised = some e }

abbrev pub not_run : String → String → TaskStatus → TaskReason → TaskOutcome
not_run task model_id status reason = record {
  task_id = task;
  model_id = model_id;
  status = status;
  usd = 0;
  reason = reason;
  run_id = none;
  usage_detail = none;
  ledgered = false;
  wall_s = none;
}

abbrev pub report_task : TaskOutcome → Run → Run
report_task o s = record s { outcomes = s.outcomes ++ o ∷ [] }

-- `except SpendRefused`; the registry's own exception is another one.
abbrev pub on_refusal : String → String → SpendError → Run → Run
on_refusal task model_id (SpendError.unresolved e) s = raise (ExecuteError.unresolved e) s
on_refusal task model_id e s =
    report_task (not_run task model_id TaskStatus.refused (TaskReason.spend_refused e)) s

-- The dict that `build_usage_row` is given.
abbrev pub usage_source : String → String → String → UsageDetail → Row
usage_source run_id ts model d = record blank {
  run_id = some run_id;
  ts = some ts;
  model = some model;
  tokens_in = some d.tokens_in;
  tokens_out = some d.tokens_out;
}

abbrev pub or_text : Option String → String → String
or_text none b = b
or_text (some a) b = if a =? "" then b else a

module _ {Text : Type 0} (w : World Text) (request : RunRequest)
    (model_id family prefix : String) where
  abbrev pub ran_row : String → ℕ → UsageDetail → UsageRow
  ran_row task n d =
      let run_id = prefix +++ "-" +++ task in
      build_usage_row (usage_source run_id (w.now n) request.model d) run_id family (some d)
        (some model_id) "worker" none

  abbrev pub ran_outcome : String → ℕ → UsageDetail → ℕ → TaskOutcome
  ran_outcome task n d usd = record {
    task_id = task;
    model_id = model_id;
    status = TaskStatus.ran;
    usd = usd;
    reason = TaskReason.ran_as (prefix +++ "-" +++ task);
    run_id = some (prefix +++ "-" +++ task);
    usage_detail = some d;
    ledgered = true;
    wall_s = some (w.elapsed n);
  }

  -- The end of an iteration that ran, on the parsed usage and its price. `n` is the invocation's number.
  abbrev pub ledger_run : String → ℕ → UsageDetail → ℕ → Run → Run
  ledger_run task n d usd s = record s {
    spent = s.spent + usd;
    ledgered = s.ledgered + 1;
    ledger = s.ledger ++ ran_row task n d ∷ [];
    outcomes = s.outcomes ++ ran_outcome task n d usd ∷ [];
  }

  -- From the output of the command on.
  unfoldable pub account : String → ℕ → Text → Run → Run
  account task n out s = elim (parse_usage_detailed w.loads w.lines w.is_blank family out) [
    | err e ↦ raise (ExecuteError.undeclared e) s
    | ok parsed ↦ elim parsed [
      | none ↦ raise ExecuteError.parse_raised s
      | some d ↦ elim (cost_of model_id d) [
        | err e ↦ raise (ExecuteError.cost_unknown e) s
        | ok usd ↦ ledger_run task n d usd s
      ]
    ]
  ]

  -- The prompt, the environment and the invocation.
  unfoldable pub invoke_task : String → InvocationPath → Run → Run
  unfolding account
  invoke_task task path s = elim (w.prompt request.tasks_dir task) [
    | none ↦ raise (ExecuteError.no_prompt task) s
    | some prompt ↦ elim (invocation_env path request.api_key w.environ) [
      | err e ↦ raise e s
      | ok env ↦
          let called = record s { invocations = suc s.invocations } in
          elim (w.invoke s.invocations (build_command path model_id request.effort prompt) env) [
            | none ↦ raise ExecuteError.invoke_raised called
            | some out ↦ account task s.invocations out called
          ]
    ]
  ]

  -- One iteration of the loop.
  unfoldable pub run_task : String → Run → Run
  unfolding invoke_task
  run_task task s = elim (authorize request.model request.cap_usd (pos s.spent)) [
    | err e ↦ on_refusal task model_id e s
    | ok _ ↦ elim (lookup family invocation_paths) [
      | none ↦
          report_task (not_run task model_id TaskStatus.unsupported (TaskReason.no_path family)) s
      | some path ↦ invoke_task task path s
    ]
  ]

  unfoldable pub run_tasks : List String → Run → Run
  unfolding run_task
  run_tasks [] s = s
  run_tasks (task ∷ tasks) s = if is_some s.raised then s else run_tasks tasks (run_task task s)

abbrev pub ending_of : RunRequest → String → String → Run → Ending
ending_of request model_id family s = record {
  report = elim s.raised [
    | some e ↦ err e
    | none ↦ ok (record {
      model_id = model_id;
      family = family;
      cap_usd = request.cap_usd;
      spent_usd = s.spent;
      outcomes = s.outcomes;
      ledger_rows_written = s.ledgered;
      effort = request.effort;
    })
  ];
  ledger = s.ledger;
  invocations = s.invocations;
}

abbrev pub start : List UsageRow → Run
start ledger = record {
  spent = 0;
  ledgered = 0;
  outcomes = [];
  ledger = ledger;
  invocations = 0;
  raised = none;
}

abbrev pub refuse_all : ExecuteError → List UsageRow → Ending
refuse_all e ledger = record { report = err e; ledger = ledger; invocations = 0 }

abbrev pub acknowledged : Option String → String → Bool
acknowledged none expected = false
acknowledged (some supplied) expected = supplied =? expected

module _ {Text : Type 0} (w : World Text) where
  abbrev pub run_resolved :
      RunRequest → Result RegistryError (String × Spec) → List UsageRow → Ending
  run_resolved request (err e) ledger = refuse_all (ExecuteError.unresolved e) ledger
  run_resolved request (ok (model_id, spec)) ledger = ending_of request model_id spec.family (
      run_tasks w request model_id spec.family (or_text request.run_id_prefix w.random_prefix)
        request.task_ids (start ledger))

  unfoldable pub execute : RunRequest → Option String → List UsageRow → Ending
  unfolding run_tasks
  execute request disclosed ledger =
      if acknowledged disclosed (w.digest request.model request.task_ids request.cap_usd)
      then run_resolved request (resolve_model request.model) ledger
      else refuse_all (ExecuteError.disclosure_required disclosed) ledger
