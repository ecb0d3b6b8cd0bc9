-- ===== src/Judge.antt =====
-- runner/judge.py: which runs are judged, and what a judged run leaves. The two commands, the scratch
-- trees and the decoding of JSON are given, and so is the text of a list of code points. The scores that
-- `extract_json` finds in an answer are not modelled, nor is the id that the command line names without
-- `--from-results`.
pub mod Work
mod Tests
use model_eval.Prelude.{
  ◌||◌, ℕ, suc, String, Bool, true, false, not, ◌&&◌, Option, none, some, List, [], ◌∷◌, ◌++◌,
  string_key, ◌=?◌, ◌==◌, contains, keep, length, ltb, is_some, if◌then◌else◌, Result, ok, err,
  ◌>>=◌,
}
use model_eval.Json.{Json, Fields, get}
use model_eval.Rows.{Row, blank}
use model_eval.RunId.{Text, codes, RunIdError, parse_run_id, build_judge_run_id}
use model_eval.UsageLedger.{UndeclaredFamily}
use model_eval.UsageLedger.Parse.{UsageDetail, parse_usage_detailed}
use model_eval.UsageLedger.Entry.{UsageRow, build_usage_row}

-- A row of the results as the judge reads it; `passed` is the truth of the key `pass`.
pub record Graded : Type 0 where
  pub run_id : Option String
  pub exit_reason : Option String
  pub passed : Bool

pub data JudgeError : Type 0 where
  no_run_id : JudgeError
  usage_error : UndeclaredFamily → JudgeError
  unreadable : JudgeError
  run_id_error : RunIdError → JudgeError

abbrev pub is_ok : Option String → Bool
is_ok none = false
is_ok (some reason) = reason =? "ok"

abbrev pub id_or_raise : Option String → Result JudgeError String
id_or_raise none = err no_run_id
id_or_raise (some id) = ok id

-- A line that is no JSON is `none`.
unfoldable pub passing_run_ids : List (Option Graded) → Result JudgeError (List String)
passing_run_ids [] = ok []
passing_run_ids (none ∷ lines) = passing_run_ids lines
passing_run_ids (some row ∷ lines) =
    let rest = passing_run_ids lines in
    if is_ok row.exit_reason && row.passed
    then (do id ← id_or_raise row.run_id; ids ← rest; ok (id ∷ ids))
    else rest

-- The ids of the lines of the judgments; a line without one is `none`.
unfoldable pub already_judged : List (Option String) → List String
already_judged [] = []
already_judged (none ∷ lines) = already_judged lines
already_judged (some id ∷ lines) = id ∷ already_judged lines

-- What the judges meet: the tree of a run, the output of each command, whether `extract_json` takes an
-- output without an exception, and the libraries.
pub record Bench : Type 0 where
  pub has_scratch : String → Bool
  pub claude_says : String → String
  pub codex_says : String → String
  pub extracts : String → Bool
  pub ts : String
  pub loads : String → Option Json
  pub lines : String → List String
  pub is_blank : String → Bool
  pub spell : Text → String

pub record Panel : Type 0 where
  pub judgments : List (Option String)
  pub usage : List UsageRow
  pub judged : ℕ
  pub stopped : Option JudgeError

-- The keys of the object at `modelUsage`, where there is one.
abbrev pub field_names : Fields → List String
field_names Fields.end = []
field_names (Fields.field name v rest) = name ∷ field_names rest

abbrev pub names_of : Json → List String
names_of (Json.obj fields) = field_names fields
names_of _ = []

abbrev pub reported_names : Option Json → List String
reported_names (some (Json.obj fields)) = names_of (get "modelUsage" fields)
reported_names _ = []

abbrev pub only_name : List String → Option String → Option String
only_name (name ∷ []) declared = some name
only_name _ declared = declared

unfoldable pub judge_model_id : Bench → String → String → Option String → Option String
judge_model_id b family raw declared =
    if family =? "claude" then only_name (reported_names (b.loads raw)) declared else declared

abbrev pub judge_usage_row : Bench → String → String → Text → UsageDetail → Option String → UsageRow
judge_usage_row b id family name d model_id =
    build_usage_row
      (record blank {
        run_id = some (b.spell name);
        ts = some b.ts;
        model = model_id;
        tokens_in = some 0;
        tokens_out = some 0;
      })
      (b.spell name) family (some d) model_id "judge" (some id)

abbrev pub is_free : UsageDetail → Bool
is_free d = d.tokens_in == 0 && d.tokens_out == 0

abbrev pub metered_detail :
    Bench
    → String
    → String
    → String
    → Option String
    → UsageDetail
    → Result JudgeError (List UsageRow)
metered_detail b id family raw declared d =
    if is_free d then ok [] else elim (build_judge_run_id (codes family) (codes id)) [
      | err e ↦ err (run_id_error e)
      | ok name ↦
          ok (judge_usage_row b id family name d (judge_model_id b family raw declared) ∷ [])
    ]

-- The rows that one call adds; the heads are named as their families.
unfoldable pub meter_judge_call :
    Bench → String → String → String → Option String → Result JudgeError (List UsageRow)
meter_judge_call b id family raw declared =
    elim (parse_usage_detailed b.loads b.lines b.is_blank family raw) [
      | err e ↦ err (usage_error e)
      | ok none ↦ err unreadable
      | ok (some d) ↦ metered_detail b id family raw declared d
    ]

-- The rows of both calls, and the exception that ended the second or the first.
abbrev pub meter_codex :
    List UsageRow → Result JudgeError (List UsageRow) → List UsageRow × Option JudgeError
meter_codex rows (err e) = (rows, some e)
meter_codex rows (ok more) = (rows ++ more, none)

abbrev pub meter_both :
    Bench → String → Result JudgeError (List UsageRow) → List UsageRow × Option JudgeError
meter_both b id (err e) = ([], some e)
meter_both b id (ok rows) = meter_codex rows (meter_judge_call b id "codex" (b.codex_says id) none)

abbrev pub meter_calls : Bench → String → List UsageRow × Option JudgeError
meter_calls b id =
    meter_both b id (meter_judge_call b id "claude" (b.claude_says id) (some "claude-opus-4-8"))

abbrev pub call_heads : Bench → Bool → Bool → String → List UsageRow × Option JudgeError
call_heads b mock has_usage id =
    if mock
    then ([], none)
    else if not (b.extracts (b.claude_says id) && b.extracts (b.codex_says id))
    then ([], some unreadable)
    else if has_usage
    then meter_calls b id
    else ([], none)

-- The prompt of a run is that of the task which its id names.
abbrev pub metering : Bench → Bool → Bool → String → List UsageRow × Option JudgeError
metering b mock has_usage id = elim (parse_run_id (codes id)) [
  | err e ↦ ([], some (run_id_error e))
  | ok _ ↦ call_heads b mock has_usage id
]

abbrev pub write_judgment : String → List UsageRow × Option JudgeError → Panel → Panel
write_judgment id (rows, some e) p = record p { usage = p.usage ++ rows; stopped = some e }
write_judgment id (rows, none) p = record p {
  judgments = p.judgments ++ some id ∷ [];
  usage = p.usage ++ rows;
  judged = suc p.judged;
}

-- A round of the loop of `main`: `judge_one`, and the count of its `True`s.
unfoldable pub judge_one : Bench → Bool → Bool → String → Panel → Panel
judge_one b mock has_usage id p =
    if is_some p.stopped || not (b.has_scratch id)
    then p
    else write_judgment id (metering b mock has_usage id) p

unfoldable pub judge_each : Bench → Bool → Bool → List String → Panel → Panel
judge_each b mock has_usage [] p = p
judge_each b mock has_usage (id ∷ ids) p =
    judge_each b mock has_usage ids (judge_one b mock has_usage id p)

abbrev pub todo_of : List String → List (Option String) → List String
todo_of ids judgments = keep (λ id. not (contains id (already_judged judgments))) ids

-- `main` with `--from-results`: the panel at the end and the exit code.
abbrev pub judge_todo : Bench → Bool → Bool → List String → Panel → Panel × ℕ
judge_todo b mock has_usage todo p =
    let q = judge_each b mock has_usage todo p in (q, if ltb q.judged (length todo) then 1 else 0)

abbrev pub fresh_panel : List (Option String) → List UsageRow → Panel
fresh_panel judgments usage = record {
  judgments = judgments;
  usage = usage;
  judged = 0;
  stopped = none;
}

abbrev pub judge_ids : Bench → Bool → Bool → Result JudgeError (List String) → Panel → Panel × ℕ
judge_ids b mock has_usage (err e) p = (record p { stopped = some e }, 1)
judge_ids b mock has_usage (ok ids) p = judge_todo b mock has_usage (todo_of ids p.judgments) p

unfoldable pub judge_from_results :
    Bench → Bool → Bool → List (Option Graded) → List (Option String) → List UsageRow → Panel × ℕ
judge_from_results b mock has_usage results judgments usage =
    judge_ids b mock has_usage (passing_run_ids results) (fresh_panel judgments usage)
