-- ===== src/UsageLedger/Tests.antt =====
-- usage_ledger.py: the output of a codex run and of a claude run, and a retrofit of three rows.
use model_eval.Prelude.{
  ◌≡◌, ◌⊎◌, refl, Bool, true, false, Option, none, some, String, List, [], ◌∷◌, string_key, ◌=?◌,
  if◌then◌else◌, ok,
}
use model_eval.Json.{Json, Fields, get, has_type, fields_of, count_of_json, get_count}
use model_eval.Rows.{Row, blank}
use model_eval.Registry.{Spec, resolve_model, claude_tiers}
use model_eval.UsageLedger.{ParseBranch, parse_branch, parses_claude_json}
use model_eval.UsageLedger.Parse.{
  UsageDetail, parse_usage_detailed, claude_object, claude_usage, first_result,
}
use model_eval.UsageLedger.Parse.Totals.{CacheFits, parse_usage_detailed-totals}
use model_eval.UsageLedger.Entry.{build_usage_row, identify, retrofit, retrofit_rows}
use model_eval.UsageLedger.Entry.Retrofit.{retrofit-again}

abbrev family : String
family = "claude"

abbrev in_ledger : Option String
in_ledger = some "measured"

abbrev kimi : String × Spec
kimi = ("kimi-k3", record { family = "kimi"; efforts = claude_tiers; metered = true })

kimi_resolves : resolve_model "kimi" ≡ ok kimi
unfolding resolve_model
kimi_resolves = refl

abbrev usage : Fields
usage = Fields.field "input_tokens" (Json.num 40) (
    Fields.field "cache_read_input_tokens" (Json.num 60) (
      Fields.field "cached_input_tokens" (Json.num 30)
        (Fields.field "output_tokens" (Json.num 9) Fields.end)))

-- Two texts decode: an event of a codex run and the result of a claude run.
abbrev loads : String → Option Json
loads s =
    if s =? "turn"
    then some (
        Json.obj (
          Fields.field "type" (Json.text "turn.completed")
            (Fields.field "usage" (Json.obj usage) Fields.end)))
    else if s =? "result"
    then some (
        Json.obj (
          Fields.field "type" (Json.text "result")
            (Fields.field "usage" (Json.obj usage) Fields.end)))
    else none

abbrev lines : String → List String
lines out = "noise" ∷ out ∷ []

abbrev is_blank : String → Bool
is_blank line = line =? ""

abbrev consumed : UsageDetail
consumed = record {
  tokens_in = 100;
  tokens_out = 9;
  cache_read_tokens = 60;
  cache_creation_tokens = 0;
  turns = 0;
}

claude_declared : parse_branch "claude" ≡ ok ParseBranch.claude_json
unfolding parse_branch
claude_declared = refl

claude_parsed : parse_usage_detailed loads lines is_blank "claude" "result" ≡ ok (some consumed)
unfolding parse_usage_detailed parse_branch claude_object first_result claude_usage has_type
    fields_of get_count count_of_json get
claude_parsed = refl

parse_usage_detailed-totals_example :
    ((ParseBranch.claude_json ≡ ParseBranch.claude_json) × CacheFits consumed)
    ⊎ ((ParseBranch.claude_json ≡ ParseBranch.codex_jsonl) × (consumed.cache_creation_tokens ≡ 0))
parse_usage_detailed-totals_example =
    parse_usage_detailed-totals loads lines is_blank "claude" "result" ParseBranch.claude_json
      consumed claude_declared claude_parsed

abbrev transcript : String → Option String
transcript run_id = if run_id =? "a" then some "result" else none

abbrev rows : List Row
rows =
    record blank { run_id = some "a"; model = some "claude-opus-5" }
    ∷ record blank { run_id = some "b"; model = some "gone"; tokens_in = some 4 }
    ∷ record blank { run_id = some "a"; model = some "claude-opus-5" }
    ∷ []

quiet : (retrofit loads lines is_blank transcript rows []).raised ≡ false
unfolding retrofit retrofit_rows identify resolve_model parses_claude_json parse_usage_detailed
    parse_branch claude_object first_result claude_usage has_type fields_of get_count count_of_json
    get build_usage_row
quiet = refl

retrofit-again_example :
    let q = retrofit loads lines is_blank transcript rows [] in
    let again = retrofit loads lines is_blank transcript rows q.ledger in
    (again.ledger ≡ q.ledger) × (again.written ≡ 0) × (again.raised ≡ false)
retrofit-again_example = retrofit-again loads lines is_blank transcript rows [] quiet
