-- ===== src/ServingRegistry/Find.antt =====
-- serving_registry.py, `find_row`: the row that a model and a driver have.
use model_eval.Prelude.{
  ◌≡◌, ◌↔◌, ◌∙◌, refl, sym, String, ◌&&◌, Option, none, some, List, [], ◌∷◌, arith, string_key,
  ◌=?◌, IsFirst, first_of, first_of_iff, Result, ok, err, Bool-cases, inl, inr,
}
use model_eval.ServingRegistry.{ServingRow, ServingError, no_row, find_row}

-- The answer of a search that may have found an element.
abbrev pub found_or {ℓ} : {A : Type ℓ} → ServingError → Option A → Result ServingError A
found_or e none = err e
found_or e (some x) = ok x

pub found_or_iff {ℓ} :
    {A : Type ℓ} (e : ServingError) (o : Option A) (x : A) → (found_or e o ≡ ok x) ↔ (o ≡ some x)
found_or_iff e none x = ground arith
found_or_iff e (some y) x = ground arith

find_row-first_of :
    (rows : List ServingRow) (model driver : String)
    → find_row rows model driver
      ≡ found_or (no_row model driver) (first_of (λ r. r.model =? model && r.driver =? driver) rows)
unfolding find_row
find_row-first_of [] model driver = refl
find_row-first_of (row ∷ rows) model driver =
    elim (Bool-cases (row.model =? model && row.driver =? driver)) [
      | inl b ↦ rw b refl
      | inr b ↦ rw b (find_row-first_of rows model driver)
    ]

-- The search finds a row exactly when it is the first one of the model and the driver.
pub find_row_iff :
    (rows : List ServingRow) (model driver : String) (row : ServingRow)
    → (find_row rows model driver ≡ ok row)
      ↔ IsFirst (λ r. r.model =? model && r.driver =? driver) rows row
find_row_iff rows model driver row =
    let test = λ (r : ServingRow). r.model =? model && r.driver =? driver in
    let (found, back) = found_or_iff (no_row model driver) (first_of test rows) row in
    let (isolate, first) = first_of_iff test rows row in
    (
      λ h. isolate (found (sym (find_row-first_of rows model driver) ∙ h)),
      λ f. find_row-first_of rows model driver ∙ back (first f),
    )
