-- ===== src/UsageLedger/Parse.antt =====
-- usage_ledger.py, `parse_usage_detailed`. The command's output, its lines and `json.loads` are the
-- section's parameters: `Text` is the type of texts, `lines` is `splitlines`, `is_blank` is the test
-- `not line.strip()`, and `loads` gives `none` on `JSONDecodeError`. A result of `none` is a Python
-- exception other than the named one.
pub mod Totals
use model_eval.Prelude.{
  ℕ, ◌+◌, String, Bool, true, false, ◌&&◌, not, Option, none, some, List, [], ◌∷◌, if◌then◌else◌,
  keep, Result, ok, err,
}
use mathlib.Core.List.{reverse}
use model_eval.Prelude.Options.{◌>>=◌}
use model_eval.Json.{Json, Fields, get, has_type, fields_of, get_count}
use model_eval.UsageLedger.{ParseBranch, UndeclaredFamily, parse_branch}

-- What a run consumed, as `parse_usage_detailed` returns it.
pub record UsageDetail : Type 0 where
  pub tokens_in : ℕ
  pub tokens_out : ℕ
  pub cache_read_tokens : ℕ
  pub cache_creation_tokens : ℕ
  pub turns : ℕ

abbrev pub no_usage : UsageDetail
no_usage = record {
  tokens_in = 0;
  tokens_out = 0;
  cache_read_tokens = 0;
  cache_creation_tokens = 0;
  turns = 0;
}

-- The counters of one claude `result` object.
unfoldable pub claude_usage : Json → Option UsageDetail
unfolding get fields_of get_count
claude_usage (Json.obj fields) = do
  u ← fields_of (get "usage" fields)
  fresh ← get_count "input_tokens" u
  cache_creation ← get_count "cache_creation_input_tokens" u
  cache_read ← get_count "cache_read_input_tokens" u
  tokens_out ← get_count "output_tokens" u
  turns ← get_count "num_turns" fields
  some (record {
    tokens_in = fresh + cache_creation + cache_read;
    tokens_out = tokens_out;
    cache_read_tokens = cache_read;
    cache_creation_tokens = cache_creation;
    turns = turns;
  })
claude_usage _ = some no_usage

-- One event of the codex stream, on the counters so far. A line that holds no object raises.
unfoldable pub codex_event : Json → UsageDetail → Option UsageDetail
unfolding get has_type fields_of get_count
codex_event (Json.obj fields) acc =
    if has_type "turn.completed" (Json.obj fields)
    then (do
      u ← fields_of (get "usage" fields)
      tokens_in ← get_count "input_tokens" u
      cached ← get_count "cached_input_tokens" u
      tokens_out ← get_count "output_tokens" u
      some (record {
        tokens_in = acc.tokens_in + tokens_in;
        tokens_out = acc.tokens_out + tokens_out;
        cache_read_tokens = acc.cache_read_tokens + cached;
        cache_creation_tokens = acc.cache_creation_tokens;
        turns = acc.turns + 1;
      }))
    else some acc
codex_event _ acc = none

module _ {Text : Type 0} (loads : Text → Option Json) (lines : Text → List Text)
    (is_blank : Text → Bool) where
  -- The first object of type "result" in a list of lines.
  unfoldable pub first_result : List Text → Option Json
  unfolding has_type
  first_result [] = none
  first_result (line ∷ rest) =
      let later = first_result rest in
      elim (loads line) [
        | none ↦ later
        | some cand ↦ if has_type "result" cand then some cand else later
      ]

  -- `reversed([l for l in out.splitlines() if l.strip()])`
  abbrev pub last_lines : Text → List Text
  last_lines out = reverse (keep (λ line. not (is_blank line)) (lines out))

  unfoldable pub claude_object : Text → Option Json
  unfolding first_result
  claude_object out = elim (first_result (last_lines out)) [
    | some found ↦ some found
    | none ↦ loads out
  ]

  unfoldable pub codex_lines : List Text → UsageDetail → Option UsageDetail
  unfolding codex_event
  codex_lines [] acc = some acc
  codex_lines (line ∷ rest) acc =
      if is_blank line then codex_lines rest acc else elim (loads line) [
        | none ↦ codex_lines rest acc
        | some event ↦ elim (codex_event event acc) [
          | none ↦ none
          | some acc' ↦ codex_lines rest acc'
        ]
      ]

  abbrev pub by_branch : ParseBranch → Text → Option UsageDetail
  by_branch ParseBranch.claude_json out = elim (claude_object out) [
    | none ↦ some no_usage
    | some found ↦ claude_usage found
  ]
  by_branch ParseBranch.codex_jsonl out = codex_lines (lines out) no_usage

  unfoldable pub parse_usage_detailed : String → Text → Result UndeclaredFamily (Option UsageDetail)
  unfolding claude_object claude_usage codex_lines
  parse_usage_detailed family out = elim (parse_branch family) [
    | err e ↦ err e
    | ok branch ↦ ok (by_branch branch out)
  ]
