-- ===== src/Sweep/Gate/Passed.antt =====
-- run.py and serving_registry.py: what a run that the gate lets through agrees with.
use model_eval.Prelude.{
  ◌≡◌, ap, ◌∙◌, String, true, false, not, Option, none, some, arith, string_key, ◌=?◌, contains,
  all_of, if-cases, Result, ok, err, raise_if-ok, bind-ok, ok_inj, inl, inr,
}
use model_eval.Registry.{RegistryError, Spec, resolve_model, check_effort}
use model_eval.ServingRegistry.{
  ServingRow, ServingError, find_row, is_driver, require_driver, is_empty,
}
use model_eval.ServingRegistry.Gate.{check_dispatch}
use model_eval.ServingRegistry.Gate.Agrees.{agrees, has_level, check_dispatch-found}
use model_eval.Sweep.{
  Run, from_registry, from_serving, resolve_timeout_s, driver_has_dispatch_path, driver_unsupported,
}
use model_eval.Sweep.Gate.{
  Checks, check_serving, check_local_endpoint, check_run, serving_model_name, models_with_rows,
}

-- The row that a gated run is reported under.
abbrev pub IsGatedBy : Checks → Run → String → String → ServingRow → Type 0
IsGatedBy c run model driver row =
    (run.driver ≡ some driver)
    × (find_row c.rows model driver ≡ ok row)
    × (has_level row.max_harness_level run.harness_level ≡ true)
    × (is_empty c.requested ≡ false)
    × (all_of (agrees row.serving) c.requested ≡ true)

serving-ok : {A : Type 0} (r : Result ServingError A) (a : A) → from_serving r ≡ ok a → r ≡ ok a
serving-ok (ok x) a h = ap ok (ok_inj x a h)
serving-ok (err e) a h = absurd (ground (arith, h))

registry-ok : {A : Type 0} (r : Result RegistryError A) (a : A) → from_registry r ≡ ok a → r ≡ ok a
registry-ok (ok x) a h = ap ok (ok_inj x a h)
registry-ok (err e) a h = absurd (ground (arith, h))

require_driver-ok :
    (driver : Option String) (model name : String)
    → require_driver driver model ≡ ok name
    → driver ≡ some name
unfolding require_driver
require_driver-ok none model name h = absurd (ground (arith, h))
require_driver-ok (some driver) model name h = elim (if-cases (driver =? "") _ _ (ok name) h) [
  | inl (e, k) ↦ absurd (ground (arith, k))
  | inr (e, k) ↦ elim (if-cases (is_driver driver) _ _ (ok name) k) [
    | inl (f, l) ↦ ap some (ok_inj driver name l)
    | inr (f, l) ↦ absurd (ground (arith, l))
  ]
]

check_serving-ok :
    (c : Checks) (model : String) (run : Run)
    → check_serving c model run ≡ ok true
    → (driver : String) × (row : ServingRow) × IsGatedBy c run model driver row
check_serving-ok c model run h =
    elim (if-cases (contains model (models_with_rows c.rows)) _ _ (ok true) h) [
      | inr (e, k) ↦ absurd (ground (arith, k))
      | inl (e, k) ↦
          let (driver, p, k1) = bind-ok (from_serving (require_driver run.driver model)) _ true k in
          let (row, q, k2) =
            bind-ok
              (from_serving (check_dispatch c.rows model driver c.requested run.harness_level none))
              _ true k1 in
          let d =
            serving-ok (check_dispatch c.rows model driver c.requested run.harness_level none) row
              q in
          let (found, _, level, given, same) =
            (check_dispatch-found c.rows model driver c.requested run.harness_level none row).0 d in
          (
            driver,
            row,
            (
              require_driver-ok run.driver model driver
                  (serving-ok (require_driver run.driver model) driver p),
              found,
              level,
              given,
              same,
            ),
          )
    ]

-- A run that the gate lets through as gated is of a known model, declares a driver that this driver can
-- launch, and is reported under the first registry row for its model and that driver: its level is within
-- the row's ceiling, and the serving config of the sweep is not empty and agrees with the row in every
-- field.
pub check_run-gated :
    (c : Checks) (run : Run)
    → check_run c run ≡ ok true
    → (r : String × Spec) × (driver : String) × (row : ServingRow) × (resolve_model run.model
        ≡ ok r)
      × (driver_has_dispatch_path run.driver ≡ true)
      × IsGatedBy c run (serving_model_name r.0) driver row
unfolding check_run
check_run-gated c run h =
    let (r, a, h1) = bind-ok (from_registry (resolve_model run.model)) _ true h in
    let (_, _, h2) = bind-ok (from_registry (check_effort run.model run.effort)) _ true h1 in
    let (t, _, h3) = bind-ok (resolve_timeout_s run.task c.defaults) _ true h2 in
    let (_, _, h4) = bind-ok (check_local_endpoint run.model c.is_loopback) _ true h3 in
    let (gated, b, h5) = bind-ok (check_serving c (serving_model_name r.0) run) _ true h4 in
    let (f, h6) =
      raise_if-ok (not (driver_has_dispatch_path run.driver)) driver_unsupported _ true h5 in
    let (driver, row, g) = check_serving-ok c (serving_model_name r.0) run (b ∙ h6) in
    (r, driver, row, registry-ok (resolve_model run.model) r a, ground (arith, f), g)
