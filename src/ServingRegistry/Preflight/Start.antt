-- ===== src/ServingRegistry/Preflight/Start.antt =====
-- serving_registry.py, `cmd_preflight`: when a run may start.
use model_eval.Prelude.{
  ◌≡◌, ◌↔◌, ◌∙◌, refl, sym, String, true, false, ◌&&◌, ◌||◌, Option, none, some, List, [], ◌∷◌,
  arith, string_key, ◌=?◌, lookup, all_of, IsFirst, first_of, first_of_iff, Result, ok, err,
  Bool-cases, inl, inr, ◌&&◌,
}
use model_eval.ServingRegistry.{
  Scalar, same_scalar, is_unknown, ServingRow, ServingError, preflight_not_loaded, find_row,
}
use model_eval.ServingRegistry.Find.{found_or, found_or_iff, find_row_iff}
use model_eval.ServingRegistry.Preflight.{
  Loaded, observed_for, cmd_preflight, preflight_fields, lives_as, lives, seen_alike, may_start,
  preflight_code,
}

observed_for-first_of :
    (model : String) (loaded : List Loaded)
    → observed_for model loaded
      ≡ found_or
          (preflight_not_loaded model)
          (first_of (λ l. l.identifier =? model || l.model =? model) loaded)
unfolding observed_for
observed_for-first_of model [] = refl
observed_for-first_of model (l ∷ loaded) =
    elim (Bool-cases (l.identifier =? model || l.model =? model)) [
      | inl b ↦ rw b refl
      | inr b ↦ rw b (observed_for-first_of model loaded)
    ]

pub observed_for_iff :
    (model : String) (loaded : List Loaded) (l : Loaded)
    → (observed_for model loaded ≡ ok l)
      ↔ IsFirst (λ x. x.identifier =? model || x.model =? model) loaded l
observed_for_iff model loaded l =
    let test = λ (x : Loaded). x.identifier =? model || x.model =? model in
    let (found, back) = found_or_iff (preflight_not_loaded model) (first_of test loaded) l in
    let (isolate, first) = first_of_iff test loaded l in
    (
      λ h. isolate (found (sym (observed_for-first_of model loaded) ∙ h)),
      λ f. observed_for-first_of model loaded ∙ back (first f),
    )

-- The server's value of a field is known, and the row has one that is equal to it.
abbrev pub IsServed : ServingRow → String → Scalar → Type 0
IsServed row field have =
    (want : Scalar) × (lookup field row.serving ≡ some want)
    × (is_unknown have ≡ false)
    × (same_scalar have want ≡ true)

served_lem :
    (o : Option Scalar) (have : Scalar)
    → (lives_as have o ≡ true) ↔ (
        (want : Scalar) × (o ≡ some want)
        × (is_unknown have ≡ false)
        × (same_scalar have want ≡ true))
served_lem none have = (λ h. absurd (ground (arith, h)), λ (w, e, _, _). absurd (ground (arith, e)))
served_lem (some want) have = (
  λ h. (want, refl, ground (arith, h), ground (arith, h)),
  λ (w, e, known, same). ground (arith, e, known, same),
)

alike_lem :
    (row : ServingRow) (l : Loaded)
    → (all_of (lives row.serving l) preflight_fields ≡ true)
      ↔ (IsServed row "context_length" l.context_length × IsServed row "parallel" l.parallel)
alike_lem row l =
    let c = served_lem (lookup "context_length" row.serving) l.context_length in
    let p = served_lem (lookup "parallel" row.serving) l.parallel in
    (
      λ h. (c.0 (ground (arith, h)), p.0 (ground (arith, h))),
      λ (x, y). ground (arith, c.1 x, p.1 y),
    )

-- What the pre-flight wants: a row, an output, and an entry of it that agrees with the row.
abbrev pub MayStart :
    List ServingRow → String → String → Option (Result ServingError (List Loaded)) → Type 0
MayStart rows model driver output =
    (row : ServingRow) × (loaded : List Loaded) × (l : Loaded) × IsFirst
      (λ r. r.model =? model && r.driver =? driver) rows row
    × (output ≡ some (ok loaded))
    × IsFirst (λ x. x.identifier =? model || x.model =? model) loaded l
    × IsServed row "context_length" l.context_length
    × IsServed row "parallel" l.parallel

seen_alike-ok :
    (row : ServingRow) (seen : Result ServingError Loaded)
    → seen_alike row seen ≡ true
    → (l : Loaded) × (seen ≡ ok l) × (all_of (lives row.serving l) preflight_fields ≡ true)
seen_alike-ok row (ok l) h = (l, refl, h)
seen_alike-ok row (err e) h = absurd (ground (arith, h))

may_start-ok :
    (found : Result ServingError ServingRow) (model : String)
    (output : Option (Result ServingError (List Loaded)))
    → may_start found model output ≡ true
    → (row : ServingRow) × (loaded : List Loaded) × (found ≡ ok row)
      × (output ≡ some (ok loaded))
      × (seen_alike row (observed_for model loaded) ≡ true)
may_start-ok (err e) model output h = absurd (ground (arith, h))
may_start-ok (ok row) model none h = absurd (ground (arith, h))
may_start-ok (ok row) model (some (err e)) h = absurd (ground (arith, h))
may_start-ok (ok row) model (some (ok loaded)) h = (row, loaded, refl, refl, h)

may_start-MayStart :
    (rows : List ServingRow) (model driver : String)
    (output : Option (Result ServingError (List Loaded)))
    → may_start (find_row rows model driver) model output ≡ true
    → MayStart rows model driver output
may_start-MayStart rows model driver output h =
    let (row, loaded, found, read, seen) =
      may_start-ok (find_row rows model driver) model output h in
    let (l, e, same) = seen_alike-ok row (observed_for model loaded) seen in
    (
      row,
      loaded,
      l,
      (find_row_iff rows model driver row).0 found,
      read,
      (observed_for_iff model loaded l).0 e,
      ((alike_lem row l).0 same).0,
      ((alike_lem row l).0 same).1,
    )

MayStart-may_start :
    (rows : List ServingRow) (model driver : String)
    (output : Option (Result ServingError (List Loaded)))
    → MayStart rows model driver output
    → may_start (find_row rows model driver) model output ≡ true
MayStart-may_start rows model driver output (row, loaded, l, first, read, entry, length, parallel) =
    rw
      (
        (find_row_iff rows model driver row).1 first,
        read,
        (observed_for_iff model loaded l).1 entry,
      )
      ((alike_lem row l).1 (length, parallel))

-- The pre-flight exits with 0 exactly when the registry has a row of the model and the driver, the output
-- of `lms ps` could be read and has an entry that names the model as its identifier or its model, and the
-- first such entry has a known context length and a known parallelism, equal to those of the first such
-- row.
pub cmd_preflight_iff :
    (rows : List ServingRow) (model driver : String)
    (output : Option (Result ServingError (List Loaded)))
    → (cmd_preflight rows model driver output ≡ ok 0) ↔ MayStart rows model driver output
cmd_preflight_iff rows model driver output =
    let (exits, starts) = preflight_code rows model driver output in
    (
      λ h. may_start-MayStart rows model driver output (exits h),
      λ m. starts (MayStart-may_start rows model driver output m),
    )
