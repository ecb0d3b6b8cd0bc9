-- ===== src/Rows.antt =====
-- One row of `runner/results/results.jsonl` or `runner/results/usage.jsonl`, a Python dict that was
-- read from JSON, with the keys that the readers in this development look at. `none` is a key that
-- is absent or null: `row.get(key)` does not tell the two apart. Where a reader does (the key
-- `invocation_mode`, and the key that the turn cap writes) the field is an option of an option.
use model_eval.Prelude.{ℕ, Option, none, String}

pub record Row : Type 0 where
  pub run_id : Option String
  pub ts : Option String
  pub model : Option String
  pub model_id : Option String
  pub exit_reason : Option String
  pub exit_reason_pre_turn_cap : Option (Option String)
  pub turns : Option ℕ
  pub tokens_in : Option ℕ
  pub tokens_out : Option ℕ
  pub tokens_in_status : Option String
  pub usage_parser_version : Option ℕ
  pub invocation_mode : Option (Option String)

-- A row with no key.
abbrev pub blank : Row
blank = record {
  run_id = none;
  ts = none;
  model = none;
  model_id = none;
  exit_reason = none;
  exit_reason_pre_turn_cap = none;
  turns = none;
  tokens_in = none;
  tokens_out = none;
  tokens_in_status = none;
  usage_parser_version = none;
  invocation_mode = none;
}
