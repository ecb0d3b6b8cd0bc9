-- ===== src/Registry/Resolve.antt =====
-- registry.py: resolution is stable, and effort checking agrees with the declared tiers.
use model_eval.Prelude.{
  String, ◌≡◌, ◌∙◌, ap, refl, Bool, true, false, Option, none, some, List, [], ◌∷◌, arith,
  string_key, eq_iff, ◌=?◌, contains, lookup, ok, all_of, Option-cases, Bool-cases, inl, inr,
}
use model_eval.Registry.{
  Spec, models, aliases, canonical, resolve_model, check_effort, spec_or_raise, codex_tiers,
}

-- An entry that a lookup finds passes every test that all entries of the dict pass.
pub lookup-all {ℓ} :
    {V : Type ℓ} (test : String → V → Bool) (k : String) (d : List (String × V)) (v : V)
    → all_of (λ e. test e.0 e.1) d ≡ true
    → lookup k d ≡ some v
    → test k v ≡ true
lookup-all test k [] v h e = cc
lookup-all test k ((j, w) ∷ d) v h e = ground (arith, lookup-all test k d v, eq_iff k j)

abbrev not_alias : String → Bool
not_alias name = elim (lookup name aliases) [ none ↦ true | some _ ↦ false ]

targets_are_no_aliases : all_of (λ (e : String × String). not_alias e.1) aliases ≡ true
targets_are_no_aliases = refl

no_alias : (name : String) → not_alias name ≡ true → canonical name ≡ name
unfolding canonical
no_alias name h = elim (Option-cases (lookup name aliases)) [
  | inl e ↦ rw e
  | inr (t, e) ↦ absurd (cc (h, e))
]

canonical-canonical : (model : String) → canonical (canonical model) ≡ canonical model
canonical-canonical model = elim (Option-cases (lookup model aliases)) [
  | inl e ↦ let same : canonical model ≡ model = (unfold canonical in rw e) in rw (same, same)
  | inr (t, e) ↦
      let same : canonical model ≡ t = (unfold canonical in rw e) in
      rw (
        same,
        no_alias t (lookup-all (λ _ t. not_alias t) model aliases t targets_are_no_aliases e),
      )
]

spec_or_raise-eq-ok :
    (model mid : String) (found : Option Spec) (r : String × Spec)
    → spec_or_raise model mid found ≡ ok r
    → (r.0 ≡ mid) × (found ≡ some r.1)
spec_or_raise-eq-ok model mid none r h = cc
spec_or_raise-eq-ok model mid (some spec) r h = ground arith

-- What a resolved name came from.
pub resolve_model-eq-ok :
    (model : String) (r : String × Spec)
    → resolve_model model ≡ ok r
    → (r.0 ≡ canonical model) × (lookup (canonical model) models ≡ some r.1)
unfolding resolve_model
resolve_model-eq-ok model r h =
    spec_or_raise-eq-ok model (canonical model) (lookup (canonical model) models) r h

-- A resolved id resolves to itself, with the same record.
pub resolve_model-again :
    (model : String) (r : String × Spec) → resolve_model model ≡ ok r → resolve_model r.0 ≡ ok r
resolve_model-again model r h =
    let (at, found) = resolve_model-eq-ok model r h in
    let fixed : canonical r.0 ≡ canonical model = ap canonical at ∙ canonical-canonical model in
    unfold resolve_model in rw (fixed, found) (ground arith)

-- A test that every registered id and record passes holds of whatever resolves.
pub resolved-passes :
    (test : String → Spec → Bool) (model : String) (r : String × Spec)
    → all_of (λ (e : String × Spec). test e.0 e.1) models ≡ true
    → resolve_model model ≡ ok r
    → test r.0 r.1 ≡ true
resolved-passes test model r every h =
    let (at, found) = resolve_model-eq-ok model r h in
    rw at (lookup-all test (canonical model) models r.1 every found)

all_contained :
    (tier : String) (tiers accepted : List String)
    → all_of (λ t. contains t accepted) tiers ≡ true
    → contains tier tiers ≡ true
    → contains tier accepted ≡ true
all_contained tier [] accepted h k = cc
all_contained tier (t ∷ tiers) accepted h k = elim (Bool-cases (tier =? t)) [
  | inl e ↦ let same = (eq_iff tier t).0 e in rw same (ground arith)
  | inr ne ↦ ground (arith, all_contained tier tiers accepted)
]

-- Whether a record accepts every tier that all codex models have.
accepts_common : String → Spec → Bool
accepts_common id spec = all_of (λ t. contains t spec.efforts) codex_tiers

every_model_accepts : all_of (λ (e : String × Spec). accepts_common e.0 e.1) models ≡ true
unfolding accepts_common
every_model_accepts = refl

-- Every model that resolves, by whatever name, accepts each of the four tiers low, medium, high and
-- xhigh.
pub check_effort-common_tier :
    (model tier : String) (r : String × Spec)
    → resolve_model model ≡ ok r
    → contains tier codex_tiers ≡ true
    → check_effort model (some tier) ≡ ok tt
unfolding check_effort
check_effort-common_tier model tier r h k =
    let listed = resolved-passes accepts_common model r every_model_accepts h in
    let accepted : contains tier r.1.efforts ≡ true =
      all_contained tier codex_tiers r.1.efforts (unfold accepts_common in listed) k in
    rw h (ground arith)
