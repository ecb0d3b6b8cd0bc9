-- ===== src/Lib.antt =====
-- model-eval runs coding agents on tasks, records what each run did and cost, and decides which of the
-- recorded numbers may be published. The parts, and the files here that model them:
--
-- * runner/registry.py says which models exist, by which aliases, with which effort tiers, and which of
--   them cost money: Registry.
-- * runner/run_id.py writes and reads the id of a run: RunId. A text is the list of its code points.
-- * runner/usage_ledger.py reads what a run consumed from the output of a command, prices it, keeps
--   usage.jsonl and labels results.jsonl: UsageLedger, with Parse for `parse_usage_detailed`, Entry for
--   `build_usage_row` and `retrofit`, and Stamp for the two stamps. It asks the registry for the family.
-- * runner/spend_cap.py grants or refuses a run under a cap, by the prices of the ledger: SpendCap, with
--   Report for `metering_report`.
-- * product/gauntlet_playground/executor.py runs a user's tasks: it asks the spend cap in front of each
--   run, and the ledger's parser, prices and rows behind it: Executor. `execute` is `execute` there, its
--   loop `run_tasks`, and one iteration `run_task`, `invoke_task`, `account` and `ledger_run`.
-- * runner/broker.py answers a run's requests for feedback from a fixed budget and ends the run when it
--   is exhausted: Broker, a state machine whose steps are the requests and the attach.
-- * runner/run_status.py says which rows a rate may count: RunStatus.
-- * runner/serving_registry.py keeps the serving configs under which models were measured, and refuses a
--   run that is not under its row's: ServingRegistry, with Values for the values of a config, Gate for
--   `check_dispatch` and `check_comparable`, and Preflight for `check_live_serving` and `cmd_preflight`.
-- * runner/run.py is the sweep driver: Sweep, with Matrix for `build_runs`, Command for `build_cli_cmd`,
--   Execute for `execute_run`, Gate for
--   the checks of the matrix in `main`, and Invoke for `main` from there on. It asks the registry for
--   models and efforts, the serving registry for each gated run, the broker for K, the ledger's parser
--   and rows for what a run consumed, and run_status.py for the class of a row; it skips the ids that its
--   own results show as done. One invocation is `invoke`, on the results and the ledger of the ones
--   before; `record_cells` and `run_pending` are its loops.
-- * runner/judge.py takes the passed runs of the results to two judges, and bills both calls: Judge.
-- * runner/corpus_gates.py says which rows may be summarized and counts the others: CorpusGates.
-- * runner/corpus_guard.py refuses to write into the live corpus: CorpusGuard.
-- * runner/token_units.py rederives token counts from session logs and checks the ledger: TokenUnits.
--
-- Rows is a row of results.jsonl or usage.jsonl with the keys that these files read, and Json a decoded
-- JSON value. Prelude has the shared notation: Boolean tests, lists, keys, tallies, results, texts and
-- integers.
--
-- How the code is modelled. A function that raises returns a Result, or an Option where nothing tells
-- the exceptions apart. Dollar amounts are integers in units of 10^-8 dollars, in the sweep
-- driver of 10^-6 dollars, which are exact for the published prices; the code computes in floats, whose
-- rounding is not modelled: at a remaining budget that is exactly the floor of a run, the code may refuse
-- where SpendCap grants. The wall clock of a turn cap is computed exactly, as the code's floats do up to a
-- cap of 10^12 turns. Token counts are numbers from 0 up. What lies
-- outside the repository is a parameter: decoding of JSON lines, the file system, the child process, its
-- clocks, and the digest of a disclosure. A loop over rows, tasks, lines or events is recursion on the
-- list. The climbs of corpus_guard.py take fuel; more than the depth of the path is enough, where `dirname`
-- leads to a root. Digits are printed on fuel `n + 1`, of which at most `n + 1` steps are needed.
--
-- Two exceptions at malformed rows are not modelled: a line of the results whose JSON is no object, in two of
-- the sweep's readers, and a row without the key `model` in the retrofit of the ledger.
--
-- Not modelled: printed reports, command lines, reading and writing of files, sockets and threads, and
-- floats (the weighted figure of token_units.py, a float in a serving config, `derive_turn_cap_s`, the
-- statistics of runner/stats.py). Of runner/run.py: the YAML reader, the sealed homes and the
-- grader; the shuffle is an input of Matrix, and `run_cli`, the patch and the grader give inputs of Execute. Of
-- runner/serving_registry.py: the text of the registry file and of `lms ps`. Of the other programs of the
-- repository (the probes, the product's surface, the charts) nothing is modelled here.
pub mod Prelude
pub mod Rows
pub mod Json
pub mod RunStatus
pub mod Registry
pub mod CorpusGates
pub mod UsageLedger
pub mod SpendCap
pub mod RunId
pub mod Broker
pub mod TokenUnits
pub mod Executor
pub mod CorpusGuard
pub mod ServingRegistry
pub mod Sweep
pub mod Judge
