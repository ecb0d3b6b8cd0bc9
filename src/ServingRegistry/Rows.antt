-- ===== src/ServingRegistry/Rows.antt =====
-- runner/serving_registry.py: the tables, the rows and the errors of the module.
use model_eval.Prelude.{
  ℕ, String, Bool, true, false, Option, List, [], ◌∷◌, string_key, ◌=?◌, if◌then◌else◌,
}
use model_eval.ServingRegistry.Values.{Scalar, unknown}
use model_eval.Prelude.Int.{ℤ, pos}

abbrev pub serving_fields : List String
serving_fields =
    "parallel" ∷ "context_length" ∷ "max_tokens_floor" ∷ "temperature" ∷ "seed" ∷ "quant" ∷ []

abbrev pub floor_fields : List String
floor_fields = "max_tokens_floor" ∷ []

-- `REQUEST_ALIASES.get(field, field)`
abbrev pub pinned_name : String → String
pinned_name field = if field =? "max_tokens" then "max_tokens_floor" else field

-- The manifest of a driver, without its `max_harness_level`, and that level.
abbrev pub driver_capabilities : List (String × (List (String × Scalar) × ℕ))
driver_capabilities =
    (
      "claude-code",
      (
        ("subagents", Scalar.flag true)
            ∷ ("hooks", Scalar.flag true)
            ∷ ("tools", Scalar.text unknown)
            ∷ [],
        5,
      ),
    )
    ∷ (
      "pi",
      (
        ("subagents", Scalar.flag false)
            ∷ ("hooks", Scalar.flag false)
            ∷ ("tools", Scalar.int (pos 7))
            ∷ [],
        2,
      ),
    )
    ∷ []

pub record NoiseProbe : Type 0 where
  pub identical : ℕ
  pub of : ℕ

pub record ReasoningProbe : Type 0 where
  pub cap_tokens : ℤ
  pub empty : ℕ
  pub of : ℕ

pub record Permission : Type 0 where
  pub mode : String
  pub authorization : Option String
  pub authorized_date : Option String

pub record ServingRow : Type 0 where
  pub model : String
  pub driver : String
  pub serving : List (String × Scalar)
  pub capabilities : List (String × Scalar)
  pub max_harness_level : ℕ
  pub deterministic_loops : Bool
  pub noise_probe : Option NoiseProbe
  pub reasoning_probe : Option ReasoningProbe
  pub permission : Permission
  pub prefill_tok_s_min : ℕ
  pub prefill_tok_s_max : ℕ
  pub client_timeout_ms : Option Scalar

-- One disagreement of a run's request, or of the live server, with its row.
pub data Diff : Type 0 where
  below_floor differs : String → Scalar → Scalar → Diff

-- Why a pair of rows is not comparable.
pub data Problem : Type 0 where
  unmeasured differing : String → Problem
  no_noise_probe : String → String → Problem

-- `RegistryError` with its subtypes, and the two exceptions that are not its.
pub data ServingError : Type 0 where
  uninspected_config : ServingError
  structurally_impossible : ServingError
  no_driver : String → ServingError
  unknown_driver : String → ServingError
  no_row : String → String → ServingError
  declared_deterministic : ServingError
  asserted_capability : ServingError
  missing_fields : List String → ServingError
  unauthorized_bypass : ServingError
  no_prefill_rate : ServingError
  bad_client_timeout : Scalar → ServingError
  refuted_by_probe : ServingError
  no_turn_cap : ServingError
  not_pinned : String → ServingError
  not_a_number : String → Scalar → ServingError
  mismatch : List Diff → ServingError
  not_comparable : List Problem → ServingError
  unknown_capability : String → ServingError
  preflight_mismatch : List Diff → ServingError
  preflight_uninspectable : ServingError
  preflight_not_loaded : String → ServingError
  key_error : String → ServingError
  type_error : String → ServingError
