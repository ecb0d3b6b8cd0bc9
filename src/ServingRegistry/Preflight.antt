-- ===== src/ServingRegistry/Preflight.antt =====
-- serving_registry.py, the pre-flight: the live server against the row. What `parse_lms_ps` reads in the
-- output of `lms ps` is given: nothing where the command could not be run.
pub mod Start
use model_eval.Prelude.{
  ℕ, ◌≡◌, ◌≢◌, ◌↔◌, String, Bool, true, false, not, ◌&&◌, ◌||◌, Option, none, some, List, [], ◌∷◌,
  arith, string_key, ◌=?◌, lookup, if◌then◌else◌, all_of, Result, ok, err, ◌>>=◌, ◌>>◌, raise_if,
}
use model_eval.ServingRegistry.{
  Scalar, same_scalar, is_unknown, unknown, ServingRow, ServingError, Diff, differs, item,
  item_or_raise, find_row, preflight_mismatch, preflight_uninspectable, preflight_not_loaded,
  key_error, type_error,
}
use model_eval.ServingRegistry.Gate.{add_diff}

pub record Loaded : Type 0 where
  pub identifier : String
  pub model : String
  pub context_length : Scalar
  pub parallel : Scalar

abbrev pub preflight_fields : List String
preflight_fields = "context_length" ∷ "parallel" ∷ []

-- `row.get("identifier") == model or row.get("model") == model`
abbrev pub is_loaded_as : String → Loaded → Bool
is_loaded_as model l = l.identifier =? model || l.model =? model

unfoldable pub observed_for : String → List Loaded → Result ServingError Loaded
observed_for model [] = err (preflight_not_loaded model)
observed_for model (l ∷ loaded) = if is_loaded_as model l then ok l else observed_for model loaded

-- `observed.get(field, UNKNOWN)`
abbrev pub observed_field : Loaded → String → Scalar
observed_field l field =
    if field =? "context_length"
    then l.context_length
    else if field =? "parallel"
    then l.parallel
    else Scalar.text unknown

abbrev pub live_diff : String → Scalar → Scalar → Option Diff
live_diff field want have = if same_scalar have want then none else some (differs field have want)

-- The loop over the fields.
unfoldable pub live_diffs :
    List String → List (String × Scalar) → Loaded → Result ServingError (List Diff)
live_diffs [] serving l = ok []
live_diffs (field ∷ fields) serving l = do
  want ← item field serving
  raise_if (is_unknown (observed_field l field)) preflight_uninspectable
  diffs ← live_diffs fields serving l
  ok (add_diff (live_diff field want (observed_field l field)) diffs)

abbrev pub refuse_live : List Diff → Result ServingError (List String)
refuse_live [] = ok preflight_fields
refuse_live (d ∷ diffs) = err (preflight_mismatch (d ∷ diffs))

unfoldable pub check_live_serving : ServingRow → Loaded → Result ServingError (List String)
unfolding live_diffs
check_live_serving row l = live_diffs preflight_fields row.serving l >>= refuse_live

-- The exit code of the three exceptions that the command catches; the others leave it.
abbrev pub exit_code : Result ServingError (List String) → Result ServingError ℕ
exit_code (ok inspected) = ok 0
exit_code (err (preflight_mismatch diffs)) = ok 3
exit_code (err (preflight_not_loaded model)) = ok 5
exit_code (err (key_error key)) = err (key_error key)
exit_code (err (type_error key)) = err (type_error key)
exit_code (err _) = ok 4

-- From what `parse_lms_ps` gives or raises.
abbrev pub inspect_loaded :
    ServingRow → String → Result ServingError (List Loaded) → Result ServingError (List String)
inspect_loaded row model output = do
  loaded ← output
  observed ← observed_for model loaded
  check_live_serving row observed

abbrev pub preflight_row :
    ServingRow → String → Option (Result ServingError (List Loaded)) → Result ServingError ℕ
preflight_row row model none = ok 4
preflight_row row model (some output) = exit_code (inspect_loaded row model output)

abbrev pub preflight_found :
    Result ServingError ServingRow
    → String
    → Option (Result ServingError (List Loaded))
    → Result ServingError ℕ
preflight_found (err e) model output = ok 4
preflight_found (ok row) model output = preflight_row row model output

unfoldable pub cmd_preflight :
    List ServingRow
    → String
    → String
    → Option (Result ServingError (List Loaded))
    → Result ServingError ℕ
cmd_preflight rows model driver output = preflight_found (find_row rows model driver) model output

-- Whether the live server has a row's value in one field.
abbrev pub lives_as : Scalar → Option Scalar → Bool
lives_as have none = false
lives_as have (some want) = not (is_unknown have) && same_scalar have want

abbrev pub lives : List (String × Scalar) → Loaded → String → Bool
lives serving l field = lives_as (observed_field l field) (lookup field serving)

abbrev pub seen_alike : ServingRow → Result ServingError Loaded → Bool
seen_alike row (ok l) = all_of (lives row.serving l) preflight_fields
seen_alike row (err e) = false

-- Whether the pre-flight has a row, an output that could be read, and the model in it with the row's
-- values.
abbrev pub may_start :
    Result ServingError ServingRow → String → Option (Result ServingError (List Loaded)) → Bool
may_start (ok row) model (some (ok loaded)) = seen_alike row (observed_for model loaded)
may_start _ model output = false

-- One round of the loop, on the outcomes of its two tests.
live_step :
    (unseen same : Bool) (d : Diff) (rest : Result ServingError (List Diff)) (all : Bool)
    → (rest ≡ ok []) ↔ (all ≡ true)
    → ((raise_if unseen preflight_uninspectable
          >> (rest >>= (λ diffs. ok (add_diff (if same then none else some d) diffs))))
        ≡ ok [])
      ↔ (((not unseen && same) && all) ≡ true)
live_step true same d rest all h = ground arith
live_step false same d (err e) all h = ground (arith, h)
live_step false true d (ok ds) all h = ground (arith, h)
live_step false false d (ok ds) all h = ground (arith, h)

live_round :
    (field : String) (o : Option Scalar) (have : Scalar) (rest : Result ServingError (List Diff))
    (all : Bool)
    → (rest ≡ ok []) ↔ (all ≡ true)
    → ((item_or_raise field o >>= (λ want.
          raise_if (is_unknown have) preflight_uninspectable
          >> (rest >>= (λ diffs. ok (add_diff (live_diff field want have) diffs)))))
        ≡ ok [])
      ↔ ((lives_as have o && all) ≡ true)
live_round field none have rest all h = ground arith
live_round field (some want) have rest all h =
    live_step (is_unknown have) (same_scalar have want) (differs field have want) rest all h

live_diffs-ok :
    (fields : List String) (serving : List (String × Scalar)) (l : Loaded)
    → (live_diffs fields serving l ≡ ok []) ↔ (all_of (lives serving l) fields ≡ true)
unfolding live_diffs
live_diffs-ok [] serving l = ground arith
live_diffs-ok (f ∷ fields) serving l =
    live_round f (lookup f serving) (observed_field l f) (live_diffs fields serving l)
      (all_of (lives serving l) fields) (live_diffs-ok fields serving l)

exit_code-err : (e : ServingError) → exit_code (err e) ≢ ok 0
exit_code-err e = ground arith

-- No comparison answers with one of the two exceptions that the command lets through, and only a full
-- agreement answers with no exception.
live_code :
    (r : Result ServingError (List Diff)) (b : Bool)
    → (r ≡ ok []) ↔ (b ≡ true)
    → (exit_code (r >>= refuse_live) ≡ ok 0) ↔ (b ≡ true)
live_code (ok []) b h = ground (arith, h)
live_code (ok (d ∷ ds)) b h = ground (arith, h)
live_code (err e) b h = ground (arith, h, exit_code-err e)

seen_code :
    (row : ServingRow) (seen : Result ServingError Loaded)
    → (exit_code (seen >>= check_live_serving row) ≡ ok 0) ↔ (seen_alike row seen ≡ true)
unfolding check_live_serving
seen_code row (err e) = ground (arith, exit_code-err e)
seen_code row (ok l) =
    live_code (live_diffs preflight_fields row.serving l)
      (all_of (lives row.serving l) preflight_fields) (live_diffs-ok preflight_fields row.serving l)

found_code :
    (found : Result ServingError ServingRow) (model : String)
    (output : Option (Result ServingError (List Loaded)))
    → (preflight_found found model output ≡ ok 0) ↔ (may_start found model output ≡ true)
found_code (err e) model output = ground arith
found_code (ok row) model none = ground arith
found_code (ok row) model (some (err e)) = ground (arith, exit_code-err e)
found_code (ok row) model (some (ok loaded)) = seen_code row (observed_for model loaded)

pub preflight_code :
    (rows : List ServingRow) (model driver : String)
    (output : Option (Result ServingError (List Loaded)))
    → (cmd_preflight rows model driver output ≡ ok 0)
      ↔ (may_start (find_row rows model driver) model output ≡ true)
unfolding cmd_preflight
preflight_code rows model driver output = found_code (find_row rows model driver) model output
