-- ===== src/ServingRegistry.antt =====
-- runner/serving_registry.py: how the rows of the serving registry come to be. A row is a dict
-- that was built by `new_row` or read from models.yaml; a measured rate and a count are numbers from 0
-- up. `raise KeyError` and `TypeError` are errors like the module's own.
mod Values
mod Rows
pub mod Find
pub mod Gate
pub mod Preflight
pub mod NewRow
pub mod WallClock
mod Tests
pub use Values.*
pub use Rows.*
use model_eval.Prelude.{
  ℕ, suc, ◌+◌, ◌-◌, ◌*◌, ◌/◌, String, Bool, true, false, not, ◌&&◌, Option, none, some, List, [],
  ◌∷◌, ◌++◌, string_key, ◌=?◌, lookup, is_some, contains, keep, leb, ◌==◌, if◌then◌else◌, Result,
  ok, err, ◌>>=◌, ◌>>◌, raise_if,
}
use model_eval.Prelude.Int.{ℤ, pos, negsuc, ltb_ℤ}

-- `row[key]`
abbrev pub item_or_raise : String → Option Scalar → Result ServingError Scalar
item_or_raise key none = err (key_error key)
item_or_raise key (some v) = ok v

abbrev pub item : String → List (String × Scalar) → Result ServingError Scalar
item key d = item_or_raise key (lookup key d)

-- `value <= 0` of an int.
abbrev pub is_positive : ℤ → Bool
is_positive (pos n) = not (n == 0)
is_positive (negsuc n) = false

-- An absent timeout and a null one are alike.
abbrev pub valid_timeout : Scalar → Bool
valid_timeout Scalar.null = true
valid_timeout (Scalar.int z) = is_positive z
valid_timeout _ = false

unfoldable pub validate_client_timeout_ms : Option Scalar → Result ServingError (Unit {0})
validate_client_timeout_ms none = ok tt
validate_client_timeout_ms (some v) = raise_if (not (valid_timeout v)) (bad_client_timeout v)

abbrev pub is_pair : String → String → ServingRow → Bool
is_pair model driver row = row.model =? model && row.driver =? driver

unfoldable pub find_row : List ServingRow → String → String → Result ServingError ServingRow
find_row [] model driver = err (no_row model driver)
find_row (row ∷ rows) model driver =
    if is_pair model driver row then ok row else find_row rows model driver

-- `driver in DRIVER_CAPABILITIES`
abbrev pub is_driver : String → Bool
is_driver driver = is_some (lookup driver driver_capabilities)

unfoldable pub require_driver : Option String → String → Result ServingError String
require_driver none model = err (no_driver model)
require_driver (some driver) model =
    if driver =? ""
    then err (no_driver model)
    else if is_driver driver
    then ok driver
    else err (unknown_driver driver)

-- `manifest.get(k) != v`; the manifest holds the ceiling too.
abbrev pub asserts_other : List (String × Scalar) × ℕ → String × Scalar → Bool
asserts_other (manifest, level) (k, v) =
    elim (lookup k (("max_harness_level", Scalar.int (pos level)) ∷ manifest)) [
      | none ↦ not (same_scalar Scalar.null v)
      | some have ↦ not (same_scalar have v)
    ]

abbrev pub missing_from : List (String × Scalar) → List String
missing_from serving = keep (λ f. not (is_some (lookup f serving))) serving_fields

-- `{f: serving[f] for f in SERVING_FIELDS}`, where every field is there.
abbrev pub pinned : List String → List (String × Scalar) → List (String × Scalar)
pinned [] serving = []
pinned (f ∷ fields) serving = elim (lookup f serving) [
  | none ↦ pinned fields serving
  | some v ↦ (f, v) ∷ pinned fields serving
]

-- `bool(text)` of an optional text.
abbrev pub given : Option String → Bool
given none = false
given (some s) = not (s =? "")

-- The arguments of `new_row` behind the model and the driver.
pub record RowRequest : Type 0 where
  pub serving : List (String × Scalar)
  pub prefill_tok_s : ℕ
  pub prefill_tok_s_max : ℕ
  pub permission : Permission
  pub capabilities : List (String × Scalar)
  pub deterministic_loops : Bool
  pub client_timeout_ms : Option Scalar

abbrev pub is_unauthorized : Permission → Bool
is_unauthorized p =
    p.mode =? "bypassPermissions" && not (given p.authorization && given p.authorized_date)

abbrev pub row_of : String → String → List (String × Scalar) × ℕ → RowRequest → ServingRow
row_of model driver (manifest, level) r = record {
  model = model;
  driver = driver;
  serving = pinned serving_fields r.serving;
  capabilities = manifest;
  max_harness_level = level;
  deterministic_loops = false;
  noise_probe = none;
  reasoning_probe = none;
  permission = r.permission;
  prefill_tok_s_min = r.prefill_tok_s;
  prefill_tok_s_max = if r.prefill_tok_s_max == 0 then r.prefill_tok_s else r.prefill_tok_s_max;
  client_timeout_ms = r.client_timeout_ms;
}

abbrev pub is_empty {ℓ} : {A : Type ℓ} → List A → Bool
is_empty [] = true
is_empty (x ∷ xs) = false

abbrev pub manifest_or_raise :
    String → Option (List (String × Scalar) × ℕ) → Result ServingError (List (String × Scalar) × ℕ)
manifest_or_raise driver none = err (unknown_driver driver)
manifest_or_raise driver (some manifest) = ok manifest

-- `new_row` from the driver's manifest on.
unfoldable pub add_row :
    String → String → RowRequest → List (String × Scalar) × ℕ → Result ServingError ServingRow
unfolding validate_client_timeout_ms
add_row model driver r manifest =
    raise_if r.deterministic_loops declared_deterministic
    >> (raise_if (not (is_empty (keep (asserts_other manifest) r.capabilities))) asserted_capability
        >> (raise_if (not (is_empty (missing_from r.serving)))
              (missing_fields (missing_from r.serving))
            >> (raise_if (is_unauthorized r.permission) unauthorized_bypass
                >> (raise_if (r.prefill_tok_s == 0) no_prefill_rate
                    >> (validate_client_timeout_ms r.client_timeout_ms
                        >> ok (row_of model driver manifest r))))))

unfoldable pub new_row : String → String → RowRequest → Result ServingError ServingRow
unfolding add_row
new_row model driver r =
    manifest_or_raise driver (lookup driver driver_capabilities) >>= add_row model driver r

unfoldable pub record_noise_probe : ServingRow → ℕ → ℕ → ServingRow
record_noise_probe row identical of = record row {
  noise_probe = some (record { identical = identical; of = of });
  deterministic_loops = leb 5 of && identical == of;
}

-- `cap_tokens >= floor`, a TypeError where the floor is no number.
abbrev pub at_floor : ℤ → Scalar → Result ServingError Bool
at_floor cap floor = elim (number_of floor) [
  | none ↦ err (type_error "max_tokens_floor")
  | some n ↦ ok (not (ltb_ℤ cap n))
]

unfoldable pub record_reasoning_probe : ServingRow → ℤ → ℕ → ℕ → Result ServingError ServingRow
record_reasoning_probe row cap_tokens empty of = do
  floor ← item "max_tokens_floor" row.serving
  refuted ← (if empty == 0 then ok false else at_floor cap_tokens floor)
  raise_if refuted refuted_by_probe
  ok (record row {
    reasoning_probe = some (record { cap_tokens = cap_tokens; empty = empty; of = of });
  })

-- `math.ceil(n * 157 * 1.5 / 600.0) * 600`, in exact numbers: n * 157 * 1.5 / 600 is n * 471 / 1200, and
-- adding 1199 before the division rounds up. Up to n = 10 ^ 12 the code's floats have room for n * 471 / 2
-- and cannot round the quotient to a whole number that it is not, so both agree; beyond, the rounding of
-- floats is not modelled.
unfoldable pub derive_wall_clock_s : ℤ → Result ServingError ℕ
derive_wall_clock_s (negsuc n) = err no_turn_cap
derive_wall_clock_s (pos n) = if n == 0 then err no_turn_cap else ok ((n * 471 + 1199) / 1200 * 600)
