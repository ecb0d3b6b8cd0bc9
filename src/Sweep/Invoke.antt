-- ===== src/Sweep/Invoke.antt =====
-- run.py, `main`, from the matrix on: the gate, the rows of the cells that cannot run, the pending runs and
-- the loop over them. The matrix is what `build_runs` gives and `--only` leaves. A dollar amount is a
-- whole number of units of 10^-6 dollars. `recorded`, `ran` and `capped` say what an invocation did.
pub mod Trace
pub mod Loop
pub mod Record
pub mod Recorded
pub mod Resume
pub mod Complete
pub mod Settled
pub mod Again
pub mod Refine
pub mod Board
use model_eval.Prelude.{
  ℕ, zero, suc, ◌+◌, ◌-◌, ◌*◌, String, Bool, true, false, not, ◌&&◌, ◌||◌, Option, none, some, List,
  [], ◌∷◌, ◌++◌, map, string_key, ◌=?◌, contains, keep, length, leb, is_some, if◌then◌else◌, Result,
  ok, err, ◌>>=◌,
}
use model_eval.Prelude.Int.{ℤ, pos, negsuc}
use model_eval.Registry.{is_metered}
use model_eval.Broker.{KError, resolve_k}
use model_eval.UsageLedger.Entry.{UsageRow}
use model_eval.ServingRegistry.{is_empty}
use model_eval.Sweep.{
  Run, SweepError, ResultRow, Line, Corpus, append_row, append_usage_row, existing_ids,
  recorded_impossible_ids, recorded_driver_unsupported_ids, from_registry, no_tokens,
}
use model_eval.Sweep.Command.{is_given}
use model_eval.Sweep.Execute.{Outside, status_row_of, execute_run}
use model_eval.Sweep.Gate.{Checks, fate, Sorting, unsorted, sort_runs}

-- The arguments, and what `main` reads of the environment.
pub record Options : Type 0 where
  pub limit : Option ℤ
  pub max_usd : Option ℕ
  pub dry_run : Bool
  pub mock : Option String
  pub broker_enabled : Bool

-- A run that was executed, its row, and the metered spend before it.
pub record Ran : Type 0 where
  pub run : Run
  pub row : ResultRow
  pub spent_before : ℕ

pub record State : Type 0 where
  pub corpus : Corpus
  pub spent : ℕ
  pub recorded : List ResultRow
  pub ran : List Ran
  pub capped : List Run
  pub stopped : Option SweepError

abbrev pub begin : Corpus → State
begin corpus = record {
  corpus = corpus;
  spent = 0;
  recorded = [];
  ran = [];
  capped = [];
  stopped = none;
}

-- An uncaught exception ends the invocation.
abbrev pub stop : SweepError → State → State
stop e s = record s { stopped = some e }

abbrev pub record_row : ResultRow → State → State
record_row row s = record s { corpus = append_row row s.corpus; recorded = s.recorded ++ row ∷ [] }

abbrev pub record_result : Result SweepError ResultRow → State → State
record_result (ok row) s = record_row row s
record_result (err e) s = stop e s

-- The body of the two loops over the cells that cannot run.
abbrev pub record_cell : (Run → Outside) → String → List String → Run → State → State
record_cell w reason already run s =
    if is_some s.stopped || contains run.run_id already
    then s
    else record_result (status_row_of (w run).ts run reason) s

unfoldable pub record_cells : (Run → Outside) → String → List String → List Run → State → State
record_cells w reason already [] s = s
record_cells w reason already (run ∷ rest) s =
    record_cells w reason already rest (record_cell w reason already run s)

abbrev pub run_ids : List Run → List String
run_ids runs = map (λ run. run.run_id) runs

abbrev pub without : List String → List Run → List Run
without ids runs = keep (λ run. not (contains run.run_id ids)) runs

-- `pending[:n]`, where a negative n counts from the end.
abbrev pub first_n : ℕ → List Run → List Run
first_n n [] = []
first_n zero (run ∷ runs) = []
first_n (suc n) (run ∷ runs) = run ∷ first_n n runs

abbrev pub limited : Option ℤ → List Run → List Run
limited none runs = runs
limited (some (pos n)) runs = first_n n runs
limited (some (negsuc n)) runs = first_n (length runs - suc n) runs

abbrev pub pending_of : Options → List String → List Run → List Run
pending_of opts done runs = limited opts.limit (without done runs)

-- `tokens_in / 1e6 * 3.0 + tokens_out / 1e6 * 15.0`
abbrev pub kimi_dollars : ResultRow → Result SweepError ℕ
kimi_dollars row = elim row.tokens_in [
  | none ↦ err (no_tokens row.run_id)
  | some i ↦ elim row.tokens_out [
    | none ↦ err (no_tokens row.run_id)
    | some o ↦ ok (i * 3 + o * 15)
  ]
]

abbrev pub reaches_cap : Option ℕ → ℕ → Bool
reaches_cap none spent = false
reaches_cap (some cap) spent = leb cap spent

abbrev pub append_rows : ResultRow × Option UsageRow → Corpus → Corpus
append_rows (row, none) c = append_row row c
append_rows (row, some u) c = append_usage_row u (append_row row c)

abbrev pub add_ran : Run → ResultRow × Option UsageRow → State → State
add_ran run (row, u) s = record s {
  corpus = append_rows (row, u) s.corpus;
  ran = s.ran ++ record { run = run; row = row; spent_before = s.spent } ∷ [];
}

abbrev pub spend : Result SweepError ℕ → State → State
spend (ok usd) s = record s { spent = s.spent + usd }
spend (err e) s = stop e s

abbrev pub bill : Bool → ResultRow → State → State
bill metered row s = if metered then spend (kimi_dollars row) s else s

abbrev pub finish_run : Bool → Run → Result SweepError (ResultRow × Option UsageRow) → State → State
finish_run metered run (err e) s = stop e s
finish_run metered run (ok (row, u)) s = bill metered row (add_ran run (row, u) s)

abbrev pub cap_run : Run → State → State
cap_run run s = record s { capped = s.capped ++ run ∷ [] }

-- The body of the loop, from `is_metered` on.
unfoldable pub run_metered :
    Options → Checks → (Run → Outside) → Run → Result SweepError Bool → State → State
run_metered opts c w run (err e) s = stop e s
run_metered opts c w run (ok metered) s =
    if metered && reaches_cap opts.max_usd s.spent
    then cap_run run s
    else finish_run metered run (execute_run (w run) run c.defaults) s

unfoldable pub run_one : Options → Checks → (Run → Outside) → Run → State → State
unfolding run_metered
run_one opts c w run s =
    if is_some s.stopped
    then s
    else run_metered opts c w run (from_registry (is_metered run.model)) s

unfoldable pub run_pending : Options → Checks → (Run → Outside) → List Run → State → State
unfolding run_one
run_pending opts c w [] s = s
run_pending opts c w (run ∷ rest) s = run_pending opts c w rest (run_one opts c w run s)

-- How an invocation ends: with its last line, with exit code 2 for the matrix or for K, or by the
-- exception in its state.
pub data Exit : Type 0 where
  finished : Exit
  rejected : List (String × SweepError) → Exit
  rejected_k : KError → Exit

pub record Invoked : Type 0 where
  pub state : State
  pub exit : Exit

abbrev pub is_mocked : Options → Bool
is_mocked opts = is_given opts.mock

-- The environment is the same for every run.
abbrev pub in_environment : Options → (Run → Outside) → Run → Outside
in_environment opts w run = record (w run) {
  mock = opts.mock;
  broker_enabled = opts.broker_enabled;
}

abbrev pub dispatch : Options → Checks → (Run → Outside) → List Run → State → Invoked
dispatch opts c w runs s = record {
  state =
      if opts.dry_run
      then s
      else run_pending opts c w (pending_of opts (existing_ids s.corpus.results) runs) s;
  exit = finished;
}

abbrev pub check_k : Options → Checks → Result KError ℕ
check_k opts c =
    if not (is_mocked opts) && opts.broker_enabled then resolve_k c.defaults.k_acceptance else ok 0

abbrev pub dispatch_checked :
    Options → Checks → (Run → Outside) → List Run → State → Result KError ℕ → Invoked
dispatch_checked opts c w runs s (err e) = record { state = s; exit = rejected_k e }
dispatch_checked opts c w runs s (ok k) = dispatch opts c w runs s

-- From the two loops over the cells that cannot run on.
abbrev pub record_impossible : (Run → Outside) → Sorting → State → State
record_impossible w sorting s =
    record_cells w "structurally_impossible" (recorded_impossible_ids s.corpus.results)
      sorting.impossible_runs s

abbrev pub record_unsupported : (Run → Outside) → Sorting → State → State
record_unsupported w sorting s =
    record_cells w "driver_unsupported" (recorded_driver_unsupported_ids s.corpus.results)
      sorting.unsupported_runs s

abbrev pub expressible : Sorting → List Run → List Run
expressible sorting runs =
    without (run_ids sorting.unsupported_runs) (without (run_ids sorting.impossible_runs) runs)

abbrev pub invoke_sorted : Options → Checks → (Run → Outside) → List Run → Sorting → State → Invoked
invoke_sorted opts c w runs sorting s =
    if not (is_empty sorting.bad_runs)
    then record { state = s; exit = rejected sorting.bad_runs }
    else dispatch_checked opts c w (expressible sorting runs)
        (record_unsupported w sorting (record_impossible w sorting s)) (check_k opts c)

abbrev pub invoke_result :
    Options → Checks → (Run → Outside) → List Run → Result SweepError Sorting → State → Invoked
invoke_result opts c w runs (err e) s = record { state = stop e s; exit = finished }
invoke_result opts c w runs (ok sorting) s = invoke_sorted opts c w runs sorting s

unfoldable pub invoke : Options → Checks → (Run → Outside) → List Run → Corpus → Invoked
unfolding record_cells run_pending sort_runs
invoke opts c w runs corpus =
    invoke_result opts c (in_environment opts w) runs (sort_runs (fate c) runs unsorted)
      (begin corpus)
