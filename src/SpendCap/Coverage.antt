-- ===== src/SpendCap/Coverage.antt =====
-- spend_cap.py, `metering_capability`: over the declared registry, the cap can meter exactly the models
-- that the registry calls metered, and their floors have prices.
use model_eval.Prelude.{
  ◌≡◌, refl, Bool, true, false, not, String, arith, Result, ok, Result-cases, inl, inr, lookup,
  string_key, all_of,
}
use model_eval.Registry.{Spec, RegistryError, models, resolve_model, is_metered}
use model_eval.Registry.Resolve.{resolved-passes}
use model_eval.UsageLedger.{usd_estimate, scaffold_floor_tokens}
use model_eval.SpendCap.{Metering, metering_capability, observe, probe_tokens_in, probe_tokens_out}

same_bool : Bool → Bool → Bool
same_bool true b = b
same_bool false b = not b

abbrev observed : String → Spec → Metering
observed id spec =
    observe id spec.family (usd_estimate id probe_tokens_in probe_tokens_out 0 0)
      (lookup id scaffold_floor_tokens)

-- What the verdict about one registered model should be.
fits : String → Spec → Bool
fits id spec = same_bool (observed id spec).meterable spec.metered

every_model_fits : all_of (λ (e : String × Spec). fits e.0 e.1) models ≡ true
unfolding fits same_bool observe usd_estimate
every_model_fits = refl

same_bool-eq : (a b : Bool) → same_bool a b ≡ true → a ≡ b
unfolding same_bool
same_bool-eq a b h = ground arith

observed-metered :
    (model : String) (r : String × Spec)
    → resolve_model model ≡ ok r
    → (observed r.0 r.1).meterable ≡ r.1.metered
observed-metered model r h =
    same_bool-eq (observed r.0 r.1).meterable r.1.metered
      (unfold fits in resolved-passes fits model r every_model_fits h)

-- Of a model that the cap has a verdict on, the registry says that a run costs money exactly when the
-- verdict is that the cap can meter it.
pub meterable-eq-metered :
    (model : String) (m : Metering)
    → metering_capability model ≡ ok m
    → is_metered model ≡ ok m.meterable
unfolding metering_capability is_metered
meterable-eq-metered model m h = elim (Result-cases (resolve_model model)) [
  | inl (r, e) ↦
      let seen : ◌≡◌ {A = Result RegistryError Metering} (ok (observed r.0 r.1)) (ok m) =
        rw e at h in
      rw e (cc (seen, observed-metered model r e))
  | inr (x, e) ↦ absurd (cc (h, e))
]
