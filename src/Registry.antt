-- ===== src/Registry.antt =====
-- runner/registry.py: which models exist and what they accept. An effort that is absent or "" asserts
-- no tier. An error carries the names that its message shows.
pub mod Resolve
mod Tests
use model_eval.Prelude.{
  String, Bool, true, false, not, Option, none, some, List, [], ◌∷◌, string_key, ◌=?◌, contains,
  lookup, or_else, if◌then◌else◌, Result, ok, err, ◌>>=◌, raise_if,
}

pub record Spec : Type 0 where
  pub family : String
  pub efforts : List String
  pub metered : Bool

pub data RegistryError : Type 0 where
  unknown_model : String → RegistryError
  undeclared_effort : String → String → RegistryError

abbrev pub claude_tiers : List String
claude_tiers = "low" ∷ "medium" ∷ "high" ∷ "xhigh" ∷ "max" ∷ []

abbrev pub codex_tiers : List String
codex_tiers = "low" ∷ "medium" ∷ "high" ∷ "xhigh" ∷ []

abbrev pub codex_tiers_6 : List String
codex_tiers_6 = "low" ∷ "medium" ∷ "high" ∷ "xhigh" ∷ "max" ∷ "ultra" ∷ []

abbrev pub unmetered : String → List String → Spec
unmetered family efforts = record { family = family; efforts = efforts; metered = false }

abbrev pub models : List (String × Spec)
models =
    ("claude-opus-5", unmetered "claude" claude_tiers)
    ∷ ("claude-opus-5[1m]", unmetered "claude" claude_tiers)
    ∷ ("claude-opus-4-8", unmetered "claude" claude_tiers)
    ∷ ("claude-fable-5", unmetered "claude" claude_tiers)
    ∷ ("claude-sonnet-5", unmetered "claude" claude_tiers)
    ∷ ("claude-haiku-4-5", unmetered "claude" claude_tiers)
    ∷ ("claude-haiku-4-5-20251001", unmetered "claude" claude_tiers)
    ∷ ("gpt-5.6-sol", unmetered "codex" codex_tiers_6)
    ∷ ("gpt-5.6-terra", unmetered "codex" codex_tiers_6)
    ∷ ("gpt-5.6-luna", unmetered "codex" claude_tiers)
    ∷ ("gpt-5.5", unmetered "codex" codex_tiers)
    ∷ ("gpt-5.4", unmetered "codex" codex_tiers)
    ∷ ("gpt-5.4-mini", unmetered "codex" codex_tiers)
    ∷ ("gpt-5.3-codex-spark", unmetered "codex" codex_tiers)
    ∷ ("codex-auto-review", unmetered "codex" codex_tiers)
    ∷ ("kimi-k3", record { family = "kimi"; efforts = claude_tiers; metered = true })
    ∷ ("glm-4.7-local", unmetered "local" claude_tiers)
    ∷ ("qwen3-coder-next-local", unmetered "local" claude_tiers)
    ∷ ("qwen3.6-35b-a3b-local", unmetered "local" claude_tiers)
    ∷ ("qwen3.8-27b-local", unmetered "local" claude_tiers)
    ∷ []

abbrev pub aliases : List (String × String)
aliases =
    ("fable", "claude-fable-5")
    ∷ ("hybrid", "claude-fable-5")
    ∷ ("sol", "gpt-5.6-sol")
    ∷ ("kimi", "kimi-k3")
    ∷ []

-- `ALIASES.get(model, model)`
pub canonical : String → String
canonical model = or_else (lookup model aliases) model

abbrev pub spec_or_raise : String → String → Option Spec → Result RegistryError (String × Spec)
spec_or_raise model mid none = err (RegistryError.unknown_model model)
spec_or_raise model mid (some spec) = ok (mid, spec)

unfoldable pub resolve_model : String → Result RegistryError (String × Spec)
unfolding canonical
resolve_model model = spec_or_raise model (canonical model) (lookup (canonical model) models)

unfoldable pub model_family : String → Result RegistryError String
unfolding resolve_model
model_family model = do r ← resolve_model model; ok r.1.family

unfoldable pub is_metered : String → Result RegistryError Bool
unfolding resolve_model
is_metered model = do r ← resolve_model model; ok r.1.metered

-- `effort and effort not in spec["efforts"]`
abbrev pub undeclared : Option String → List String → Bool
undeclared none tiers = false
undeclared (some effort) tiers = if effort =? "" then false else not (contains effort tiers)

unfoldable pub check_effort : String → Option String → Result RegistryError (Unit {0})
unfolding resolve_model
check_effort model effort = do
  r ← resolve_model model
  raise_if (undeclared effort r.1.efforts) (RegistryError.undeclared_effort r.0 (or_else effort ""))
