-- ===== src/ServingRegistry/Gate/Comparable.antt =====
-- serving_registry.py, `check_comparable`: what two rows have in common that may be compared.
use model_eval.Prelude.{
  ◌≡◌, ◌↔◌, refl, String, Bool, true, false, not, ◌&&◌, Option, none, some, List, [], ◌∷◌, ◌++◌,
  arith, string_key, lookup, is_some, all_of, Result, ok, err, ◌>>=◌, Result-cases, Option-cases,
  inl, inr,
}
use model_eval.ServingRegistry.{
  Scalar, shape_of, same_scalar, same_shape_iff, shape_key, is_unknown, serving_fields, ServingRow,
  ServingError, Problem,
}
use model_eval.ServingRegistry.Gate.{
  field_problem, field_problems, probe_problem, refuse_problems, check_comparable,
}

-- Two values that were both measured, and are equal.
abbrev pub measured_alike : Option Scalar → Option Scalar → Bool
measured_alike (some x) (some y) = not (is_unknown x) && (not (is_unknown y) && same_scalar x y)
measured_alike _ _ = false

abbrev pub alike : List (String × Scalar) → List (String × Scalar) → String → Bool
alike a b field = measured_alike (lookup field a) (lookup field b)

measured_alike-sym : (x y : Option Scalar) → measured_alike x y ≡ true → measured_alike y x ≡ true
measured_alike-sym none y h = ground (arith, h)
measured_alike-sym (some x) none h = ground (arith, h)
measured_alike-sym (some x) (some y) h =
    ground
      (arith, h, same_shape_iff (shape_of x) (shape_of y), same_shape_iff (shape_of y) (shape_of x))

measured_alike_trans :
    (x y z : Option Scalar)
    → measured_alike x y ≡ true
    → measured_alike y z ≡ true
    → measured_alike x z ≡ true
measured_alike_trans none y z h k = ground (arith, h)
measured_alike_trans (some x) none z h k = ground (arith, h)
measured_alike_trans (some x) (some y) none h k = ground (arith, k)
measured_alike_trans (some x) (some y) (some z) h k = ground (
  arith,
  h,
  k,
  same_shape_iff (shape_of x) (shape_of y),
  same_shape_iff (shape_of y) (shape_of z),
  same_shape_iff (shape_of x) (shape_of z),
)

field_problem-none :
    (field : String) (x y : Scalar)
    → (field_problem field x y ≡ none) ↔ (measured_alike (some x) (some y) ≡ true)
field_problem-none field x y = ground arith

field_problems-ok :
    (fields : List String) (a b : List (String × Scalar))
    → (field_problems fields a b ≡ ok []) ↔ (all_of (alike a b) fields ≡ true)
unfolding field_problems
field_problems-ok [] a b = ground arith
field_problems-ok (f ∷ fields) a b = elim (Option-cases (lookup f a)) [
  | inl p ↦ rw p (ground arith)
  | inr (x, p) ↦ elim (Option-cases (lookup f b)) [
    | inl q ↦ rw (p, q) (ground arith)
    | inr (y, q) ↦
        let h = field_problem-none f x y in
        let r = field_problems-ok fields a b in
        elim (Result-cases (field_problems fields a b)) [
          | inr (e, s) ↦ rw (p, q, s) (ground (arith, r, s))
          | inl (ps, s) ↦ elim (Option-cases (field_problem f x y)) [
            | inl t ↦ rw (p, q, s) (ground (arith, h, t, r, s))
            | inr (d, t) ↦ rw (p, q, s) (ground (arith, h, t, r, s))
          ]
        ]
  ]
]

unfoldable pub same_serving : List (String × Scalar) → List (String × Scalar) → Bool
same_serving a b = all_of (alike a b) serving_fields

-- Whether two rows agree on every serving field with values that were measured, and the noise of each
-- was probed.
unfoldable pub comparable : ServingRow → ServingRow → Bool
comparable a b =
    same_serving a.serving b.serving && (is_some a.noise_probe && is_some b.noise_probe)

same_serving_iff :
    (a b : List (String × Scalar))
    → (field_problems serving_fields a b ≡ ok []) ↔ (same_serving a b ≡ true)
unfolding same_serving
same_serving_iff a b = field_problems-ok serving_fields a b

no_problems :
    (ps : List Problem) (a b : ServingRow)
    → (refuse_problems (ps ++ probe_problem a ++ probe_problem b) ≡ ok tt)
      ↔ ((ps ≡ []) × (is_some a.noise_probe ≡ true) × (is_some b.noise_probe ≡ true))
no_problems (p ∷ ps) a b = ground arith
no_problems [] a b = elim (Option-cases a.noise_probe) [
  | inr (n, e) ↦ elim (Option-cases b.noise_probe) [
    | inl q ↦ ground (arith, e, q)
    | inr (m, q) ↦ ground (arith, e, q)
  ]
  | inl e ↦ ground (arith, e)
]

no_result :
    (r : Result ServingError (List Problem)) (a b : ServingRow)
    → ((r >>= (λ problems. refuse_problems (problems ++ probe_problem a ++ probe_problem b)))
        ≡ ok tt)
      ↔ ((r ≡ ok []) × (is_some a.noise_probe ≡ true) × (is_some b.noise_probe ≡ true))
no_result (err e) a b = ground arith
no_result (ok ps) a b = ground (arith, no_problems ps a b)

-- Two rows pass the comparison exactly when they have each of the six serving fields, with values that
-- were measured and are equal, and the noise of both was probed.
pub check_comparable_iff :
    (a b : ServingRow) → (check_comparable a b ≡ ok tt) ↔ (comparable a b ≡ true)
unfolding check_comparable comparable
check_comparable_iff a b =
    let (to, from) = no_result (field_problems serving_fields a.serving b.serving) a b in
    let (there, back) = same_serving_iff a.serving b.serving in
    (
      λ h. (let (p, q, r) = to h in ground (arith, there p, q, r)),
      λ h. from (back (ground arith), ground arith, ground arith),
    )

all_of-sym :
    (fields : List String) (a b : List (String × Scalar))
    → all_of (alike a b) fields ≡ true
    → all_of (alike b a) fields ≡ true
all_of-sym [] a b h = refl
all_of-sym (f ∷ fields) a b h =
    ground (arith, h, measured_alike-sym (lookup f a) (lookup f b), all_of-sym fields a b)

all_of_trans :
    (fields : List String) (a b c : List (String × Scalar))
    → all_of (alike a b) fields ≡ true
    → all_of (alike b c) fields ≡ true
    → all_of (alike a c) fields ≡ true
all_of_trans [] a b c h k = refl
all_of_trans (f ∷ fields) a b c h k = ground (
  arith,
  h,
  k,
  measured_alike_trans (lookup f a) (lookup f b) (lookup f c),
  all_of_trans fields a b c,
)

same_serving-sym :
    (a b : List (String × Scalar)) → same_serving a b ≡ true → same_serving b a ≡ true
unfolding same_serving
same_serving-sym a b h = all_of-sym serving_fields a b h

same_serving_trans :
    (a b c : List (String × Scalar))
    → same_serving a b ≡ true
    → same_serving b c ≡ true
    → same_serving a c ≡ true
unfolding same_serving
same_serving_trans a b c h k = all_of_trans serving_fields a b c h k

comparable-sym : (a b : ServingRow) → comparable a b ≡ true → comparable b a ≡ true
unfolding comparable
comparable-sym a b h = ground (arith, h, same_serving-sym a.serving b.serving)

comparable_trans :
    (a b c : ServingRow) → comparable a b ≡ true → comparable b c ≡ true → comparable a c ≡ true
unfolding comparable
comparable_trans a b c h k = ground (arith, h, k, same_serving_trans a.serving b.serving c.serving)

-- Where the comparison passes a first row with a second and the second with a third, it passes the
-- second with the first, the first with the third and the first with itself.
pub check_comparable_per :
    (a b c : ServingRow)
    → check_comparable a b ≡ ok tt
    → check_comparable b c ≡ ok tt
    → (check_comparable b a ≡ ok tt)
      × (check_comparable a c ≡ ok tt)
      × (check_comparable a a ≡ ok tt)
check_comparable_per a b c h k =
    let x = (check_comparable_iff a b).0 h in
    let y = (check_comparable_iff b c).0 k in
    (
      (check_comparable_iff b a).1 (comparable-sym a b x),
      (check_comparable_iff a c).1 (comparable_trans a b c x y),
      (check_comparable_iff a a).1 (comparable_trans a b a x (comparable-sym a b x)),
    )
