-- ===== src/ServingRegistry/Gate/Agrees.antt =====
-- serving_registry.py, `check_dispatch`: what a run that passes the gate agrees with.
use model_eval.Prelude.{
  ◌=?◌, IsFirst, ℕ, ◌≡◌, ◌↔◌, String, Bool, true, false, not, ◌&&◌, Option, none, some, List, [],
  ◌∷◌, arith, string_key, lookup, contains, leb, length, if◌then◌else◌, all_of, ok, Result-cases,
  Option-cases, Bool-cases, inl, inr,
}
use model_eval.Prelude.Int.{ℤ, ltb_ℤ}
use model_eval.ServingRegistry.{
  Scalar, same_scalar, number_of, serving_fields, floor_fields, pinned_name, ServingRow, find_row,
  is_empty,
}
use model_eval.ServingRegistry.Find.{find_row_iff}
use model_eval.ServingRegistry.Gate.{
  compare_floor, compare_field, run_diffs, check_run_config, check_capability, check_level,
  check_cell_expressible, is_false, check_dispatch,
}

-- Whether a requested value is at or above a floor, as numbers.
abbrev pub reaches : Option ℤ → Option ℤ → Bool
reaches (some w) (some h) = not (ltb_ℤ w h)
reaches _ _ = false

-- Whether one requested field agrees with a serving config: it is pinned, the config has it, and the
-- request reaches the floor that it is, or is the value.
abbrev pub agrees : List (String × Scalar) → String × Scalar → Bool
agrees serving (key, want) =
    contains (pinned_name key) serving_fields && elim (lookup (pinned_name key) serving) [
      | none ↦ false
      | some have ↦
          if contains (pinned_name key) floor_fields
          then reaches (number_of want) (number_of have)
          else same_scalar have want
    ]

compare_floor-ok :
    (field : String) (want have : Scalar)
    → (compare_floor field want have ≡ ok none) ↔ (reaches (number_of want) (number_of have) ≡ true)
compare_floor-ok field want have = elim (Option-cases (number_of want)) [
  | inl e ↦ ground arith
  | inr (w, e) ↦ elim (Option-cases (number_of have)) [
    | inl q ↦ ground arith
    | inr (h, q) ↦ ground arith
  ]
]

compare_field-ok :
    (serving : List (String × Scalar)) (key : String) (want : Scalar)
    → (compare_field serving (key, want) ≡ ok none) ↔ (agrees serving (key, want) ≡ true)
compare_field-ok serving key want = elim (Bool-cases (contains (pinned_name key) serving_fields)) [
  | inr p ↦ rw p (ground arith)
  | inl p ↦ elim (Option-cases (lookup (pinned_name key) serving)) [
    | inl q ↦ rw (p, q) (ground arith)
    | inr (have, q) ↦ elim (Bool-cases (contains (pinned_name key) floor_fields)) [
      | inl f ↦ rw (p, q, f) (ground (arith, compare_floor-ok (pinned_name key) want have))
      | inr f ↦ rw (p, q, f) (ground arith)
    ]
  ]
]

run_diffs-ok :
    (serving requested : List (String × Scalar))
    → (run_diffs serving requested ≡ ok []) ↔ (all_of (agrees serving) requested ≡ true)
unfolding run_diffs
run_diffs-ok serving [] = ground arith
run_diffs-ok serving ((key, want) ∷ requested) =
    let f = compare_field-ok serving key want in
    let h = run_diffs-ok serving requested in
    elim (Result-cases (compare_field serving (key, want))) [
      | inr (e, p) ↦ rw p (ground (arith, f, p))
      | inl (d, p) ↦ elim (Result-cases (run_diffs serving requested)) [
        | inr (e, q) ↦ rw (p, q) (ground (arith, f, p, h, q))
        | inl (ds, q) ↦ rw (p, q) (ground (arith, f, p, h, q))
      ]
    ]

-- A run's serving config passes against a row exactly when it is not empty and every field of it agrees
-- with the row: it is a pinned field that the row has, and its value reaches the row's floor for
-- `max_tokens`, and else is the row's value. The answer is then how many fields were inspected.
pub check_run_config_iff :
    (row : ServingRow) (requested : List (String × Scalar)) (n : ℕ)
    → (check_run_config row requested ≡ ok n) ↔ (
        (is_empty requested ≡ false)
        × (all_of (agrees row.serving) requested ≡ true)
        × (n ≡ length requested))
unfolding check_run_config
check_run_config_iff row [] n = ground arith
check_run_config_iff row (r ∷ requested) n =
    let h = run_diffs-ok row.serving (r ∷ requested) in
    elim (Result-cases (run_diffs row.serving (r ∷ requested))) [
      | inr (e, q) ↦ rw q (ground (arith, h, q))
      | inl ([], q) ↦ rw q (ground (arith, h, q))
      | inl (d ∷ ds, q) ↦ rw q (ground (arith, h, q))
    ]

abbrev pub has_capability : List (String × Scalar) → Option String → Bool
has_capability caps none = true
has_capability caps (some capability) = elim (lookup capability caps) [
  | none ↦ false
  | some v ↦ not (is_false v)
]

abbrev pub has_level : ℕ → Option ℕ → Bool
has_level ceiling none = true
has_level ceiling (some level) = leb level ceiling

check_capability-ok :
    (caps : List (String × Scalar)) (capability : Option String)
    → (check_capability caps capability ≡ ok tt) ↔ (has_capability caps capability ≡ true)
check_capability-ok caps none = ground arith
check_capability-ok caps (some capability) = elim (Option-cases (lookup capability caps)) [
  | inl e ↦ ground (arith, e)
  | inr (v, e) ↦ ground (arith, e)
]

check_level-ok :
    (ceiling : ℕ) (level : Option ℕ)
    → (check_level ceiling level ≡ ok tt) ↔ (has_level ceiling level ≡ true)
check_level-ok ceiling none = ground arith
check_level-ok ceiling (some level) = ground arith

-- A cell is expressible under a row exactly when the row's manifest has the capability that the cell
-- needs and does not say that the driver lacks it, and the cell's level is not above the driver's ceiling.
pub check_cell_expressible_iff :
    (row : ServingRow) (capability : Option String) (level : Option ℕ)
    → (check_cell_expressible row capability level ≡ ok tt) ↔ (
        (has_capability row.capabilities capability ≡ true)
        × (has_level row.max_harness_level level ≡ true))
unfolding check_cell_expressible
check_cell_expressible_iff row capability level =
    let c = check_capability-ok row.capabilities capability in
    let l = check_level-ok row.max_harness_level level in
    elim (Result-cases (check_capability row.capabilities capability)) [
      | inr (e, p) ↦ rw p (ground (arith, c, p))
      | inl (u, p) ↦ rw p (ground (arith, c, p, l))
    ]

pub check_dispatch-found :
    (rows : List ServingRow) (model driver : String) (requested : List (String × Scalar))
    (level : Option ℕ) (capability : Option String) (row : ServingRow)
    → (check_dispatch rows model driver requested level capability ≡ ok row) ↔ (
        (find_row rows model driver ≡ ok row)
        × (has_capability row.capabilities capability ≡ true)
        × (has_level row.max_harness_level level ≡ true)
        × (is_empty requested ≡ false)
        × (all_of (agrees row.serving) requested ≡ true))
unfolding check_dispatch
check_dispatch-found rows model driver requested level capability row =
    elim (Result-cases (find_row rows model driver)) [
      | inr (e, p) ↦ rw p (ground arith)
      | inl (r, p) ↦ elim (Result-cases (check_cell_expressible r capability level)) [
        | inr (e, q) ↦ rw (p, q) (ground (arith, check_cell_expressible_iff r capability level, q))
        | inl (u, q) ↦ elim (Result-cases (check_run_config r requested)) [
          | inr (e, c) ↦
              rw (p, q, c) (ground (arith, check_run_config_iff r requested (length requested), c))
          | inl (n, c) ↦
              rw (p, q, c)
                (ground (
                  arith,
                  check_cell_expressible_iff r capability level,
                  q,
                  check_run_config_iff r requested n,
                  c,
                ))
        ]
      ]
    ]

-- The gate lets a run pass, under a row, exactly when the row is the first one of the run's model and
-- driver, its driver can express the cell, and the run's serving config is not empty and agrees with the
-- row in every field.
pub check_dispatch_iff :
    (rows : List ServingRow) (model driver : String) (requested : List (String × Scalar))
    (level : Option ℕ) (capability : Option String) (row : ServingRow)
    → (check_dispatch rows model driver requested level capability ≡ ok row) ↔ (
        IsFirst (λ r. r.model =? model && r.driver =? driver) rows row
        × (has_capability row.capabilities capability ≡ true)
        × (has_level row.max_harness_level level ≡ true)
        × (is_empty requested ≡ false)
        × (all_of (agrees row.serving) requested ≡ true))
check_dispatch_iff rows model driver requested level capability row =
    let (passes, back) = check_dispatch-found rows model driver requested level capability row in
    let (isolate, find) = find_row_iff rows model driver row in
    (
      λ h. let (f, c, l, given, same) = passes h in (isolate f, c, l, given, same),
      λ (f, c, l, given, same). back (find f, c, l, given, same),
    )
