-- ===== src/ServingRegistry/Tests.antt =====
-- serving_registry.py at concrete inputs.
use model_eval.Prelude.{
  arith, IsFirst, ◌=?◌, ◌&&◌, string_key, ℕ, ◌*◌, ◌+◌, ◌%◌, ◌≤◌, ◌<◌, ◌≡◌, ◌↔◌, refl, String, true,
  false, none, some, List, [], ◌∷◌, all_of, ok, err,
}
use model_eval.Prelude.Int.{pos}
use model_eval.ServingRegistry.{
  Scalar, ServingRow, RowRequest, validate_client_timeout_ms, find_row, is_empty, new_row, add_row,
  row_of, record_noise_probe, derive_wall_clock_s, structurally_impossible,
}
use model_eval.ServingRegistry.Gate.{
  field_problems, check_comparable, check_dispatch, check_cell_expressible, check_run_config,
  run_diffs,
}
use model_eval.ServingRegistry.Gate.Agrees.{has_capability, has_level, agrees, check_dispatch_iff}
use model_eval.ServingRegistry.Gate.Comparable.{
  comparable, check_comparable_iff, check_comparable_per,
}
use model_eval.ServingRegistry.Preflight.{
  Loaded, cmd_preflight, observed_for, check_live_serving, live_diffs,
}
use model_eval.ServingRegistry.Preflight.Start.{MayStart, cmd_preflight_iff}
use model_eval.ServingRegistry.NewRow.{IsHonest, added, noise_probed, Built-IsHonest}
use model_eval.ServingRegistry.WallClock.{derive_wall_clock_s-bounds}

abbrev pinned_config : List (String × Scalar)
pinned_config =
    ("parallel", Scalar.int (pos 1))
    ∷ ("context_length", Scalar.int (pos 131072))
    ∷ ("max_tokens_floor", Scalar.int (pos 16384))
    ∷ ("temperature", Scalar.int (pos 0))
    ∷ ("seed", Scalar.int (pos 42))
    ∷ ("quant", Scalar.text "4bit")
    ∷ []

abbrev request : RowRequest
request = record {
  serving = pinned_config;
  prefill_tok_s = 57;
  prefill_tok_s_max = 71;
  permission = record { mode = "default"; authorization = none; authorized_date = none };
  capabilities = [];
  deterministic_loops = false;
  client_timeout_ms = none;
}

abbrev manifest : List (String × Scalar) × ℕ
manifest = (
  ("subagents", Scalar.flag false)
      ∷ ("hooks", Scalar.flag false)
      ∷ ("tools", Scalar.int (pos 7))
      ∷ [],
  2,
)

abbrev fresh_row : ServingRow
fresh_row = row_of "glm-4.7" "pi" manifest request

abbrev probed_row : ServingRow
probed_row = record fresh_row { noise_probe = some (record { identical = 5; of = 5 }) }

abbrev claude_row : ServingRow
claude_row = record probed_row { driver = "claude-code"; max_harness_level = 5 }

abbrev declared : List (String × Scalar)
declared = ("max_tokens", Scalar.int (pos 20000)) ∷ ("seed", Scalar.int (pos 42)) ∷ []

passes :
    check_dispatch (probed_row ∷ claude_row ∷ []) "glm-4.7" "claude-code" declared (some 3) none
    ≡ ok claude_row
unfolding check_dispatch find_row check_cell_expressible check_run_config run_diffs
passes = refl

too_high :
    check_dispatch (probed_row ∷ []) "glm-4.7" "pi" declared (some 3) none
    ≡ err structurally_impossible
unfolding check_dispatch find_row check_cell_expressible check_run_config run_diffs
too_high = refl

check_dispatch_iff_example :
    (check_dispatch (probed_row ∷ claude_row ∷ []) "glm-4.7" "claude-code" declared (some 3) none
      ≡ ok claude_row)
    ↔ (IsFirst
          (λ r. r.model =? "glm-4.7" && r.driver =? "claude-code")
          (probed_row ∷ claude_row ∷ [])
          claude_row
        × (has_capability claude_row.capabilities none ≡ true)
        × (has_level claude_row.max_harness_level (some 3) ≡ true)
        × (is_empty declared ≡ false)
        × (all_of (agrees claude_row.serving) declared ≡ true))
check_dispatch_iff_example =
    check_dispatch_iff (probed_row ∷ claude_row ∷ []) "glm-4.7" "claude-code" declared (some 3) none
      claude_row

compared : check_comparable probed_row claude_row ≡ ok tt
unfolding check_comparable field_problems
compared = refl

compared_back : check_comparable claude_row probed_row ≡ ok tt
unfolding check_comparable field_problems
compared_back = refl

check_comparable_iff_example :
    (check_comparable probed_row claude_row ≡ ok tt) ↔ (comparable probed_row claude_row ≡ true)
check_comparable_iff_example = check_comparable_iff probed_row claude_row

check_comparable_per_example :
    (check_comparable claude_row probed_row ≡ ok tt)
    × (check_comparable probed_row probed_row ≡ ok tt)
    × (check_comparable probed_row probed_row ≡ ok tt)
check_comparable_per_example =
    check_comparable_per probed_row claude_row probed_row compared compared_back

abbrev loaded : List Loaded
loaded =
    record {
      identifier = "glm-4.7";
      model = "zai-org/glm-4.7";
      context_length = Scalar.int (pos 131072);
      parallel = Scalar.int (pos 1);
    }
    ∷ []

loaded_starts : cmd_preflight (probed_row ∷ []) "glm-4.7" "pi" (some (ok loaded)) ≡ ok 0
unfolding cmd_preflight find_row observed_for check_live_serving live_diffs
loaded_starts = refl

not_loaded : cmd_preflight (probed_row ∷ []) "glm-4.7" "pi" (some (ok [])) ≡ ok 5
unfolding cmd_preflight find_row observed_for check_live_serving live_diffs
not_loaded = refl

cmd_preflight_iff_example :
    (cmd_preflight (probed_row ∷ []) "glm-4.7" "pi" (some (ok loaded)) ≡ ok 0)
    ↔ MayStart (probed_row ∷ []) "glm-4.7" "pi" (some (ok loaded))
cmd_preflight_iff_example = cmd_preflight_iff (probed_row ∷ []) "glm-4.7" "pi" (some (ok loaded))

built : new_row "glm-4.7" "pi" request ≡ ok fresh_row
unfolding new_row add_row validate_client_timeout_ms
built = refl

Built-IsHonest_example : IsHonest (record_noise_probe fresh_row 5 5)
Built-IsHonest_example =
    Built-IsHonest (record_noise_probe fresh_row 5 5)
      (noise_probed fresh_row 5 5 (added "glm-4.7" "pi" request fresh_row built))

registered : derive_wall_clock_s (pos 20) ≡ ok 4800
unfolding derive_wall_clock_s
registered = refl

derive_wall_clock_s-bounds_example :
    (◌≡◌ {A = ℕ} (4800 % 600) 0) × (20 * 471 ≤ 2 * 4800) × (2 * 4800 < 20 * 471 + 1200)
derive_wall_clock_s-bounds_example = derive_wall_clock_s-bounds 20 4800 (omega arith) registered
