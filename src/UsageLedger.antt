-- ===== src/UsageLedger.antt =====
-- runner/usage_ledger.py: the routing tables by model family, the disposition of a row's `tokens_in`,
-- and list prices. A dollar amount is a whole number of units of 10^-8 dollars: the published prices
-- per million tokens are then whole numbers per token.
pub mod Routing
pub mod Parse
pub mod Entry
pub mod Stamp
mod Tests
use Prim.Native.Nat.{Ordering}
use Prim.Native.String.{compare}
use model_eval.Prelude.{
  ℕ, ◌+◌, ◌-◌, ◌*◌, String, Bool, true, false, ◌&&◌, not, Option, none, some, List, [], ◌∷◌,
  string_key, ◌=?◌, ltb, leb, contains, lookup, or_else, is_some, if◌then◌else◌, Result, ok, err,
}

pub data ParseBranch : Type 0 where
  claude_json codex_jsonl : ParseBranch

abbrev pub family_parse_branch : List (String × ParseBranch)
family_parse_branch =
    ("claude", ParseBranch.claude_json)
    ∷ ("kimi", ParseBranch.claude_json)
    ∷ ("local", ParseBranch.claude_json)
    ∷ ("codex", ParseBranch.codex_jsonl)
    ∷ []

-- The family that no table declares.
pub data UndeclaredFamily : Type 0 where
  undeclared_family : String → UndeclaredFamily

unfoldable pub parse_branch : String → Result UndeclaredFamily ParseBranch
parse_branch family = elim (lookup family family_parse_branch) [
  | none ↦ err (undeclared_family family)
  | some branch ↦ ok branch
]

unfoldable pub parses_claude_json : String → Bool
parses_claude_json family = elim (lookup family family_parse_branch) [
  | none ↦ false
  | some branch ↦ elim branch [ claude_json ↦ true | codex_jsonl ↦ false ]
]

abbrev pub parser_version_pre_cache_fix : ℕ
parser_version_pre_cache_fix = 1

abbrev pub usage_parser_version : ℕ
usage_parser_version = 2

abbrev pub tokens_in_fix_ts : String
tokens_in_fix_ts = "2026-07-27T15:38:36Z"

abbrev pub unaffected_parse_branches : List String
unaffected_parse_branches = "codex" ∷ []

abbrev pub family_invocation_mode : List (String × String)
family_invocation_mode =
    ("claude", "multi_turn")
    ∷ ("kimi", "multi_turn")
    ∷ ("local", "multi_turn")
    ∷ ("codex", "single_shot")
    ∷ []

unfoldable pub invocation_mode : String → String
invocation_mode family = or_else (lookup family family_invocation_mode) "unknown"

-- `ledger_status == "measured"`
abbrev pub holds : Option String → String → Bool
holds none text = false
holds (some value) text = value =? text

unfoldable pub tokens_in_status : String → ℕ → Option String → String
tokens_in_status family parser_version ledger_status =
    if leb usage_parser_version parser_version
    then "measured"
    else if contains family unaffected_parse_branches
    then "measured"
    else if holds ledger_status "measured"
    then "recovered_in_ledger"
    else "quarantined"

-- `s >= t` on texts, by code points.
abbrev pub text_ge : String → String → Bool
text_ge s t = elim (compare s t) [ Ordering.lt ↦ false | _ ↦ true ]

unfoldable pub parser_version_at : Option String → ℕ
parser_version_at none = parser_version_pre_cache_fix
parser_version_at (some ts) =
    if text_ge ts tokens_in_fix_ts then usage_parser_version else parser_version_pre_cache_fix

pub record Price : Type 0 where
  pub in_fresh : ℕ
  pub in_cache_read : ℕ
  pub in_cache_write : ℕ
  pub out : ℕ
  pub date : String

-- 3.0, 0.30, 3.0 and 15.0 dollars per million tokens.
abbrev pub pricing : List (String × Price)
pricing =
    (
      "kimi-k3",
      record {
        in_fresh = 300;
        in_cache_read = 30;
        in_cache_write = 300;
        out = 1500;
        date = "2026-07-26";
      },
    )
    ∷ []

abbrev pub scaffold_floor_tokens : List (String × ℕ)
scaffold_floor_tokens =
    ("claude-opus-5", 28496)
    ∷ ("claude-opus-5[1m]", 28509)
    ∷ ("claude-opus-4-8", 27506)
    ∷ ("claude-fable-5", 28822)
    ∷ ("claude-sonnet-5", 36496)
    ∷ ("claude-haiku-4-5", 26619)
    ∷ ("claude-haiku-4-5-20251001", 26623)
    ∷ ("gpt-5.6-sol", 20860)
    ∷ ("gpt-5.6-terra", 17847)
    ∷ ("gpt-5.6-luna", 16656)
    ∷ ("gpt-5.5", 18136)
    ∷ ("gpt-5.4", 16751)
    ∷ ("gpt-5.4-mini", 16399)
    ∷ ("gpt-5.3-codex-spark", 15399)
    ∷ ("codex-auto-review", 16216)
    ∷ ("kimi-k3", 32795)
    ∷ []

abbrev priced : Price → ℕ → ℕ → ℕ → ℕ → ℕ
priced p tokens_in tokens_out cache_read_tokens cache_creation_tokens =
    -- `max(…, 0)` is what the subtraction of numbers does
    let fresh = tokens_in - cache_read_tokens - cache_creation_tokens in
    fresh * p.in_fresh
    + cache_read_tokens * p.in_cache_read
    + cache_creation_tokens * p.in_cache_write
    + tokens_out * p.out

unfoldable pub usd_estimate : String → ℕ → ℕ → ℕ → ℕ → Option ℕ
usd_estimate model_id tokens_in tokens_out cache_read_tokens cache_creation_tokens =
    elim (lookup model_id pricing) [
      | none ↦ none
      | some p ↦ some (priced p tokens_in tokens_out cache_read_tokens cache_creation_tokens)
    ]
