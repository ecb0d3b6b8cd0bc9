-- ===== src/Sweep.antt =====
-- runner/run.py: the sweep driver. What a run is, what it leaves in the results, which ids count as done,
-- and the wall-clock cap of a task. A results file is the list of its lines; a line that is no JSON
-- object is broken. A wall-clock reading is a count of its smallest unit.
pub mod Command
pub mod Execute
pub mod Gate
pub mod Invoke
pub mod Timeout
pub mod Ids
pub mod Matrix
mod Tests
use Prim.Native.Char.{Char, code}
use Prim.Native.String
use model_eval.Prelude.{
  ℕ, suc, ◌+◌, ◌-◌, ◌*◌, String, Bool, true, false, not, ◌&&◌, ◌||◌, Option, none, some, List, [],
  ◌∷◌, ◌++◌, string_key, nat_key, ◌=?◌, ◌==◌, leb, lookup, is_some, contains, if◌then◌else◌, Result,
  ok, err, ◌>>=◌,
}
use model_eval.Prelude.Int.{ℤ}
use model_eval.Rows.{Row, blank}
use model_eval.Registry.{RegistryError}
use model_eval.RunStatus.{StatusClass}
use model_eval.UsageLedger.{UndeclaredFamily}
use model_eval.UsageLedger.Entry.{UsageRow}
use model_eval.Broker.{KError}
use model_eval.ServingRegistry.{ServingError, derive_wall_clock_s}

-- One cell of the matrix, as `build_runs` makes it.
pub record Run : Type 0 where
  pub run_id : String
  pub sweep : String
  pub model : String
  pub effort : Option String
  pub harness : Bool
  pub driver : Option String
  pub harness_level : Option ℕ
  pub task : String
  pub rep : ℕ

-- The block `defaults` of a config. `of_tier` has the keys `timeout_t{N}_s` by N, `t1_t2` is the key
-- `timeout_t1_t2_s`, and `other` is `timeout_default_s`.
pub record Defaults : Type 0 where
  pub turn_cap_n : Option ℤ
  pub of_tier : List (ℕ × ℕ)
  pub t1_t2 : Option ℕ
  pub other : Option ℕ
  pub k_acceptance : Option ℤ

pub data SweepError : Type 0 where
  registry : RegistryError → SweepError
  serving : ServingError → SweepError
  usage : UndeclaredFamily → SweepError
  bad_k : KError → SweepError
  no_wall_clock : String → SweepError
  off_machine : String → SweepError
  driver_unsupported : SweepError
  no_tokens : String → SweepError
  unknown_family : String → SweepError
  no_dispatch_path : SweepError
  unreadable_usage : SweepError

-- One row that the driver writes. `none` is null.
pub record ResultRow : Type 0 where
  pub run_id : String
  pub ts : String
  pub sweep : String
  pub model : String
  pub model_id : String
  pub effort : Option String
  pub harness : Bool
  pub driver : Option String
  pub harness_level : Option ℕ
  pub task : String
  pub rep : ℕ
  pub passed : Option Bool
  pub tokens_in : Option ℕ
  pub tokens_out : Option ℕ
  pub wall_s : Option ℕ
  pub usage_parser_version : Option ℕ
  pub tokens_in_status : Option String
  pub turns : Option ℕ
  pub loc_changed : Option ℕ
  pub exit_reason : String
  pub sealed : Option Bool
  pub write_contained : Option Bool
  pub home_isolated : Option Bool
  pub invocation_mode : Option String
  pub brokered : Option Bool
  pub k_cap : Option ℕ
  pub acceptance_requests : Option ℕ
  pub cap_exhausted : Bool
  pub status : StatusClass
  pub pass_raw : Option Bool
  pub pass_at_cap : Option Bool
  pub tampered : Bool
  pub tamper_files : List String

-- The keys of a row that the readers look at.
abbrev pub as_row : ResultRow → Row
as_row r = record blank {
  run_id = some r.run_id;
  ts = some r.ts;
  model = some r.model;
  model_id = some r.model_id;
  exit_reason = some r.exit_reason;
  turns = r.turns;
  tokens_in = r.tokens_in;
  tokens_out = r.tokens_out;
  tokens_in_status = r.tokens_in_status;
  usage_parser_version = r.usage_parser_version;
  invocation_mode = some r.invocation_mode;
}

-- One line of results.jsonl; blank lines are broken too, since both are skipped. A line whose JSON is no
-- object is not modelled: `recorded_impossible_ids` and `recorded_driver_unsupported_ids` raise there.
pub data Line : Type 0 where
  broken : Line
  written : Row → Line

pub record Corpus : Type 0 where
  pub results : List Line
  pub usage : List UsageRow

-- `append_row` at the results.
abbrev pub append_row : ResultRow → Corpus → Corpus
append_row r c = record c { results = c.results ++ written (as_row r) ∷ [] }

abbrev pub append_usage_row : UsageRow → Corpus → Corpus
append_usage_row u c = record c { usage = c.usage ++ u ∷ [] }

abbrev pub done_reasons : List String
done_reasons = "ok" ∷ "cap_exhausted" ∷ []

abbrev pub is_reason : List String → Option String → Bool
is_reason reasons none = false
is_reason reasons (some reason) = contains reason reasons

-- `ids.add(...)`; a row without an id adds none that a run could have.
abbrev pub add_id : Bool → Option String → List String → List String
add_id false id ids = ids
add_id true none ids = ids
add_id true (some id) ids = id ∷ ids

-- The ids of the rows with one of some exit reasons.
unfoldable pub ids_with : List String → List Line → List String
ids_with reasons [] = []
ids_with reasons (broken ∷ lines) = ids_with reasons lines
ids_with reasons (written row ∷ lines) =
    add_id (is_reason reasons row.exit_reason) row.run_id (ids_with reasons lines)

abbrev pub existing_ids : List Line → List String
existing_ids lines = ids_with done_reasons lines

abbrev pub recorded_impossible_ids : List Line → List String
recorded_impossible_ids lines = ids_with ("structurally_impossible" ∷ []) lines

abbrev pub recorded_driver_unsupported_ids : List Line → List String
recorded_driver_unsupported_ids lines = ids_with ("driver_unsupported" ∷ []) lines

-- `driver in (None, "claude-code")`
abbrev pub driver_has_dispatch_path : Option String → Bool
driver_has_dispatch_path none = true
driver_has_dispatch_path (some driver) = driver =? "claude-code"

abbrev pub digit : ℕ → Option ℕ
digit c = if leb b'0' c && leb c b'9' then some (c - b'0') else none

-- What may follow the digits of a tier: the end, also before a last newline, or a separator.
abbrev pub ends_tier : String → Bool
ends_tier String.[] = true
ends_tier (String.◌∷◌ c rest) = (code c == b'-' || code c == b'_') || (code c == 10 && rest =? "")

-- `\d+(?:[-_]|$)` from the number read so far, of ASCII digits.
unfoldable pub read_tier : ℕ → String → Option ℕ
read_tier n String.[] = some n
read_tier n (String.◌∷◌ c rest) = elim (digit (code c)) [
  | some d ↦ read_tier (n * 10 + d) rest
  | none ↦ if ends_tier (String.◌∷◌ c rest) then some n else none
]

abbrev pub first_digit : String → Option ℕ
first_digit String.[] = none
first_digit (String.◌∷◌ c rest) = elim (digit (code c)) [ none ↦ none | some d ↦ read_tier d rest ]

-- `_TIER_RE`
abbrev pub tier_of : String → Option ℕ
tier_of String.[] = none
tier_of (String.◌∷◌ c rest) = if code c == b't' then first_digit rest else none

abbrev pub or_next : Option ℕ → Option ℕ → Option ℕ
or_next none b = b
or_next (some a) b = some a

-- `timeout_t{N}_s`, then the legacy key. The legacy key of tier 3 is its own key.
abbrev pub tier_timeout : Defaults → Option ℕ → Option ℕ
tier_timeout defaults none = none
tier_timeout defaults (some tier) =
    or_next (lookup tier defaults.of_tier) (if tier == 1 || tier == 2 then defaults.t1_t2 else none)

abbrev pub wall_clock_or_raise : String → Option ℕ → Result SweepError ℕ
wall_clock_or_raise task none = err (no_wall_clock task)
wall_clock_or_raise task (some s) = ok s

-- An error of serving_registry.py passes through.
abbrev pub from_serving {ℓ} : {A : Type ℓ} → Result ServingError A → Result SweepError A
from_serving (ok a) = ok a
from_serving (err e) = err (serving e)

abbrev pub from_registry {ℓ} : {A : Type ℓ} → Result RegistryError A → Result SweepError A
from_registry (ok a) = ok a
from_registry (err e) = err (registry e)

abbrev pub timeout_under : String → Defaults → Option ℤ → Result SweepError ℕ
timeout_under task defaults (some n) = from_serving (derive_wall_clock_s n)
timeout_under task defaults none =
    wall_clock_or_raise task (or_next (tier_timeout defaults (tier_of task)) defaults.other)

unfoldable pub resolve_timeout_s : String → Defaults → Result SweepError ℕ
resolve_timeout_s task defaults = timeout_under task defaults defaults.turn_cap_n
