-- ===== src/Sweep/Command.antt =====
-- run.py, `build_cli_cmd`: the command line of a run.
use model_eval.Prelude.{
  String, Bool, false, not, Option, none, some, List, [], ◌∷◌, ◌++◌, string_key, ◌=?◌, contains,
  or_else, if◌then◌else◌, Result, ok, err, ◌>>=◌, ◌>>◌, raise_if,
}
use model_eval.Prelude.Text.{◌+++◌}
use model_eval.Registry.{resolve_model, check_effort}
use model_eval.Sweep.{
  SweepError, driver_has_dispatch_path, from_registry, unknown_family, no_dispatch_path,
}

abbrev pub mcp_seal_flags : List String
mcp_seal_flags = "--mcp-config" ∷ "{\"mcpServers\":{}}" ∷ "--strict-mcp-config" ∷ []

abbrev pub is_given : Option String → Bool
is_given none = false
is_given (some s) = not (s =? "")

abbrev pub claude_cmd : String → String → Option String → List String
claude_cmd prompt mid effort =
    ("claude" ∷ "-p" ∷ prompt ∷ "--output-format" ∷ "json" ∷ "--model" ∷ mid
      ∷ "--dangerously-skip-permissions" ∷ [])
    ++ mcp_seal_flags
    ++ (if is_given effort then "--effort" ∷ or_else effort "" ∷ [] else [])

abbrev pub codex_cmd : String → String → Option String → List String
codex_cmd prompt mid effort =
    ("codex" ∷ "exec" ∷ "--json" ∷ "--skip-git-repo-check"
      ∷ "--dangerously-bypass-approvals-and-sandbox" ∷ "-m" ∷ mid ∷ [])
    ++ (if is_given effort
        then "-c" ∷ ("model_reasoning_effort=" +++ or_else effort "") ∷ []
        else [])
    ++ prompt ∷ []

abbrev pub cmd_of : String → String → Option String → String → Result SweepError (List String)
cmd_of prompt mid effort family =
    if contains family ("claude" ∷ "kimi" ∷ "local" ∷ [])
    then ok (claude_cmd prompt mid effort)
    else if family =? "codex"
    then ok (codex_cmd prompt mid effort)
    else err (unknown_family family)

unfoldable pub build_cli_cmd :
    String → Option String → String → Option String → Result SweepError (List String)
build_cli_cmd model effort prompt driver = do
  raise_if (not (driver_has_dispatch_path driver)) no_dispatch_path
  r ← from_registry (resolve_model model)
  checked ← from_registry (check_effort r.0 effort)
  cmd_of prompt r.0 effort r.1.family
