-- ===== src/Executor/Records.antt =====
-- executor.py: the tuples and the tables, and what `execute` meets outside the repository.
use model_eval.Prelude.{ℕ, String, Bool, Option, List, [], ◌∷◌, Result}
use model_eval.Prelude.Int.{ℤ}
use model_eval.Json.{Json}
use model_eval.Registry.{RegistryError}
use model_eval.UsageLedger.{UndeclaredFamily}
use model_eval.UsageLedger.Parse.{UsageDetail}
use model_eval.UsageLedger.Entry.{UsageRow}
use model_eval.SpendCap.{SpendError, CostError}

pub record InvocationPath : Type 0 where
  pub family : String
  pub auth : String
  pub binary : String
  pub base_url : String
  pub key_env_vars : List String

abbrev pub kimi_path : InvocationPath
kimi_path = record {
  family = "kimi";
  auth = "api_key";
  binary = "claude";
  base_url = "https://api.moonshot.ai/anthropic";
  key_env_vars = "ANTHROPIC_API_KEY" ∷ "ANTHROPIC_AUTH_TOKEN" ∷ [];
}

abbrev pub invocation_paths : List (String × InvocationPath)
invocation_paths = ("kimi", kimi_path) ∷ []

abbrev pub env_allowlist : List String
env_allowlist = "PATH" ∷ "HOME" ∷ "LANG" ∷ "LC_ALL" ∷ "TMPDIR" ∷ []

pub data TaskStatus : Type 0 where
  ran refused unsupported : TaskStatus

pub data TaskReason : Type 0 where
  ran_as : String → TaskReason
  spend_refused : SpendError → TaskReason
  no_path : String → TaskReason

pub record TaskOutcome : Type 0 where
  pub task_id : String
  pub model_id : String
  pub status : TaskStatus
  pub usd : ℕ
  pub reason : TaskReason
  pub run_id : Option String
  pub usage_detail : Option UsageDetail
  pub ledgered : Bool
  pub wall_s : Option ℕ

pub record RunRequest : Type 0 where
  pub model : String
  pub task_ids : List String
  pub api_key : String
  pub cap_usd : Option ℤ
  pub tasks_dir : String
  pub effort : String
  pub run_id_prefix : Option String

pub record RunReport : Type 0 where
  pub model_id : String
  pub family : String
  pub cap_usd : Option ℤ
  pub spent_usd : ℕ
  pub outcomes : List TaskOutcome
  pub ledger_rows_written : ℕ
  pub effort : String

-- The exceptions that leave `execute`.
pub data ExecuteError : Type 0 where
  disclosure_required : Option String → ExecuteError
  unresolved : RegistryError → ExecuteError
  no_prompt : String → ExecuteError
  no_api_key : String → ExecuteError
  invoke_raised : ExecuteError
  undeclared : UndeclaredFamily → ExecuteError
  parse_raised : ExecuteError
  cost_unknown : CostError → ExecuteError

-- What lies outside. The `n`-th invocation of a run is `invoke n`, and its clocks are read at `n`.
pub record World (Text : Type 0) : Type 0 where
  pub digest : String → List String → Option ℤ → String
  pub prompt : String → String → Option String
  pub environ : List (String × String)
  pub invoke : ℕ → List String → List (String × String) → Option Text
  pub elapsed : ℕ → ℕ
  pub now : ℕ → String
  pub random_prefix : String
  pub loads : Text → Option Json
  pub lines : Text → List Text
  pub is_blank : Text → Bool

-- The variables of the loop, the ledger, how often `invoke` was called, and what ended the loop early.
pub record Run : Type 0 where
  pub spent : ℕ
  pub ledgered : ℕ
  pub outcomes : List TaskOutcome
  pub ledger : List UsageRow
  pub invocations : ℕ
  pub raised : Option ExecuteError

-- How `execute` ends: its report or its exception, with the ledger as it then is.
pub record Ending : Type 0 where
  pub report : Result ExecuteError RunReport
  pub ledger : List UsageRow
  pub invocations : ℕ
