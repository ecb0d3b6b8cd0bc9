-- ===== src/SpendCap/Report/Split.antt =====
-- spend_cap.py, `metering_report`: every model is on its side, and so is every family.
use model_eval.Prelude.{
  ℕ, ◌==◌, sym, ◌≡◌, refl, ◌∙◌, ap, subst, String, Bool, false, not, ◌&&◌, List, [], ◌∷◌, map, keep,
  length, string_key, ◌=?◌, contains, any_of, count_of, arith, ok, err, bind-ok, ok_inj, some,
}
use model_eval.SpendCap.{Metering, metering_capability}
use model_eval.SpendCap.Report.{
  MeteringReport, sorted, set_of, verdicts_of, is_refused, ids_of, families_of, report_of,
  metering_report,
}
use model_eval.SpendCap.Report.Texts.{
  length-sorted, count_of-sorted, contains-sorted, contains-set_of, contains-keep,
}

-- Whether the verdict on a model passes a test.
abbrev pub on_verdict : (Metering → Bool) → String → Bool
on_verdict test id = elim (metering_capability id) [ err e ↦ false | ok v ↦ test v ]

length-verdicts_of :
    (ids : List String) (vs : List Metering) → verdicts_of ids ≡ ok vs → length vs ≡ length ids
unfolding verdicts_of
length-verdicts_of [] vs h = ap (length {0}) (sym (ok_inj [] vs h))
length-verdicts_of (id ∷ ids) vs h =
    let (v, a, h1) = bind-ok (metering_capability id) _ vs h in
    let (rest, b, h2) = bind-ok (verdicts_of ids) _ vs h1 in
    ap (length {0}) (sym (ok_inj (v ∷ rest) vs h2)) ∙ ground (arith, length-verdicts_of ids rest b)

count_of-verdicts_of :
    (test : Metering → Bool) (ids : List String) (vs : List Metering)
    → verdicts_of ids ≡ ok vs
    → count_of test vs ≡ count_of (on_verdict test) ids
unfolding verdicts_of
count_of-verdicts_of test [] vs h = ap (count_of test) (sym (ok_inj [] vs h))
count_of-verdicts_of test (id ∷ ids) vs h =
    let (v, a, h1) = bind-ok (metering_capability id) _ vs h in
    let (rest, b, h2) = bind-ok (verdicts_of ids) _ vs h1 in
    ap (count_of test) (sym (ok_inj (v ∷ rest) vs h2))
    ∙ ground (arith, a, count_of-verdicts_of test ids rest b)

-- Whether a test holds of some element is whether it holds of any number of them.
any_of-count_of : {A : Type 0} (p : A → Bool) (xs : List A) → any_of p xs ≡ not (count_of p xs == 0)
any_of-count_of p [] = refl
any_of-count_of p (x ∷ xs) = ground (arith, any_of-count_of p xs)

any_of-verdicts_of :
    (test : Metering → Bool) (ids : List String) (vs : List Metering)
    → verdicts_of (sorted ids) ≡ ok vs
    → any_of test vs ≡ any_of (on_verdict test) ids
any_of-verdicts_of test ids vs h =
    any_of-count_of test vs
    ∙ ap (λ (n : ℕ). not (n == 0))
        (count_of-verdicts_of test (sorted ids) vs h ∙ count_of-sorted (on_verdict test) ids)
    ∙ sym (any_of-count_of (on_verdict test) ids)

count_of-ids :
    (q : Metering → Bool) (x : String) (vs : List Metering)
    → count_of (λ y. x =? y) (ids_of (keep q vs)) ≡ count_of (λ v. q v && x =? v.model_id) vs
count_of-ids q x [] = refl
count_of-ids q x (v ∷ vs) = ground (arith, count_of-ids q x vs)

contains-families :
    (q : Metering → Bool) (f : String) (vs : List Metering)
    → contains f (map (λ (v : Metering). v.family) (keep q vs))
      ≡ any_of (λ v. q v && f =? v.family) vs
contains-families q f [] = refl
contains-families q f (v ∷ vs) = ground (arith, contains-families q f vs)

contains-families_of :
    (f : String) (vs : List Metering)
    → contains f (families_of vs) ≡ contains f (map (λ (v : Metering). v.family) vs)
contains-families_of f vs =
    let families = map (λ (v : Metering). v.family) vs in
    contains-sorted f (set_of families) ∙ contains-set_of f families

-- What the report says of a model and of a family.
abbrev pub Splits : List String → String → String → MeteringReport → Type 0
Splits ids x f report =
    (report.inspected ≡ length ids)
    × (count_of (λ y. x =? y) report.meterable_ids
        ≡ count_of (on_verdict (λ v. v.meterable && x =? v.model_id)) ids)
    × (count_of (λ y. x =? y) report.refused_ids
        ≡ count_of (on_verdict (λ v. not v.meterable && x =? v.model_id)) ids)
    × (contains f report.meterable_families
        ≡ any_of (on_verdict (λ v. v.meterable && f =? v.family)) ids)
    × (contains f report.refused_families ≡ (
        any_of (on_verdict (λ v. not v.meterable && f =? v.family)) ids
        && not (any_of (on_verdict (λ v. v.meterable && f =? v.family)) ids)))

report_of-Splits :
    (ids : List String) (x f : String) (vs : List Metering)
    → verdicts_of (sorted ids) ≡ ok vs
    → Splits ids x f (report_of vs)
report_of-Splits ids x f vs h =
    let counted = λ (test : Metering → Bool).
      count_of-verdicts_of test (sorted ids) vs h ∙ count_of-sorted (on_verdict test) ids in
    let meterable =
      contains-families_of f (keep (λ (v : Metering). v.meterable) vs)
      ∙ contains-families (λ (v : Metering). v.meterable) f vs
      ∙ any_of-verdicts_of (λ v. v.meterable && f =? v.family) ids vs h in
    let families = set_of (map (λ (v : Metering). v.family) (keep is_refused vs)) in
    let refused =
      contains-set_of f (map (λ (v : Metering). v.family) (keep is_refused vs))
      ∙ contains-families is_refused f vs
      ∙ any_of-verdicts_of (λ v. not v.meterable && f =? v.family) ids vs h in
    let outside = λ (g : String). not (contains g (report_of vs).meterable_families) in
    (
      length-verdicts_of (sorted ids) vs h ∙ length-sorted ids,
      count_of-ids (λ (v : Metering). v.meterable) x vs
          ∙ counted (λ v. v.meterable && x =? v.model_id),
      count_of-ids is_refused x vs ∙ counted (λ v. not v.meterable && x =? v.model_id),
      meterable,
      contains-sorted f (keep outside families)
          ∙ contains-keep outside f families
          ∙ ground (arith, meterable, refused),
    )

-- In a report over a list of models, the inspected ones are as many as the list has; a model id stands
-- among the meterable ids as often as the list has models of that id whose verdict is meterable, and
-- among the refused ids as often as it has such models whose verdict is not; a family is a meterable one
-- exactly when some model of the list is of it and meterable, and a refused one exactly when some model
-- of the list is of it and refused, and none is of it and meterable.
pub metering_report-splits :
    (ids : List String) (report : MeteringReport) (x f : String)
    → metering_report (some ids) ≡ ok report
    → (report.inspected ≡ length ids)
      × (count_of (λ y. x =? y) report.meterable_ids
          ≡ count_of (on_verdict (λ v. v.meterable && x =? v.model_id)) ids)
      × (count_of (λ y. x =? y) report.refused_ids
          ≡ count_of (on_verdict (λ v. not v.meterable && x =? v.model_id)) ids)
      × (contains f report.meterable_families
          ≡ any_of (on_verdict (λ v. v.meterable && f =? v.family)) ids)
      × (contains f report.refused_families ≡ (
          any_of (on_verdict (λ v. not v.meterable && f =? v.family)) ids
          && not (any_of (on_verdict (λ v. v.meterable && f =? v.family)) ids)))
unfolding metering_report
metering_report-splits ids report x f h =
    let (vs, a, k) = bind-ok (verdicts_of (sorted ids)) _ report h in
    subst (Splits ids x f) (ok_inj (report_of vs) report k) (report_of-Splits ids x f vs a)
