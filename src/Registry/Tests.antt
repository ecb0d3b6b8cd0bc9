-- ===== src/Registry/Tests.antt =====
-- registry.py: an alias and its model.
use model_eval.Prelude.{◌≡◌, refl, String, ok, string_key, false}
use model_eval.Registry.{Spec, resolve_model, codex_tiers_6}

abbrev sol : String × Spec
sol = ("gpt-5.6-sol", record { family = "codex"; efforts = codex_tiers_6; metered = false })

sol_resolves : resolve_model "sol" ≡ ok sol
unfolding resolve_model
sol_resolves = refl
