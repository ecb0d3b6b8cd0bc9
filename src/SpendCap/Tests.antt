-- ===== src/SpendCap/Tests.antt =====
-- spend_cap.py: a cap of 0.30 dollars on the one metered model, whose floor is 0.098385 dollars.
use model_eval.Prelude.{
  String, count_of, any_of, ◌=?◌, ◌&&◌, [], ◌∷◌, length, contains, not, string_key, ◌≡◌, refl, true,
  none, some, ok, err,
}
use model_eval.Prelude.Int.{pos, ◌+ℤ◌, ◌-ℤ◌, ◌≤ℤ◌}
use model_eval.Registry.{is_metered, resolve_model}
use model_eval.UsageLedger.{usd_estimate}
use model_eval.SpendCap.{
  Metering, Authorization, SpendError, Reason, metering_capability, observe, authorize,
}
use model_eval.SpendCap.Report.{MeteringReport, metering_report, verdicts_of}
use model_eval.SpendCap.Report.Split.{on_verdict, metering_report-splits}
use model_eval.SpendCap.Authority.{authorize-covers}
use model_eval.SpendCap.Coverage.{meterable-eq-metered}

abbrev kimi : Metering
kimi = record {
  model_id = "kimi-k3";
  family = "kimi";
  meterable = true;
  reason = Reason.metered 32795 9838500;
  probe_usd = some 1800000000;
  floor_tokens = some 32795;
  floor_usd = some 9838500;
}

abbrev permission : Authorization
permission = record {
  model_id = "kimi-k3";
  family = "kimi";
  cap_usd = pos 30000000;
  spent_usd = pos 1000000;
  floor_usd = 9838500;
  remaining_usd = pos 29000000;
}

kimi_metered : metering_capability "kimi" ≡ ok kimi
unfolding metering_capability observe resolve_model usd_estimate
kimi_metered = refl

permitted : authorize "kimi" (some (pos 30000000)) (pos 1000000) ≡ ok permission
unfolding authorize metering_capability observe resolve_model usd_estimate ◌-ℤ◌
permitted = refl

-- Without a declared cap nothing may be spent.
no_cap : authorize "kimi" none (pos 0) ≡ err (SpendError.no_cap_declared "kimi-k3" "kimi")
unfolding authorize metering_capability observe resolve_model usd_estimate
no_cap = refl

authorize-covers_example :
    (some (pos 30000000) ≡ some permission.cap_usd)
    × (permission.spent_usd ≡ pos 1000000)
    × (permission.remaining_usd ≡ permission.cap_usd -ℤ pos 1000000)
    × (pos 1000000 +ℤ pos permission.floor_usd ≤ℤ permission.cap_usd)
    × ((m : Metering) × (metering_capability "kimi" ≡ ok m)
        × (m.meterable ≡ true)
        × (m.floor_usd ≡ some permission.floor_usd))
authorize-covers_example =
    authorize-covers "kimi" (some (pos 30000000)) (pos 1000000) permission permitted

meterable-eq-metered_example : is_metered "kimi" ≡ ok true
meterable-eq-metered_example = meterable-eq-metered "kimi" kimi kimi_metered

abbrev two_models : MeteringReport
two_models = record {
  inspected = 2;
  meterable_ids = "kimi-k3" ∷ [];
  refused_ids = "gpt-5.6-sol" ∷ [];
  meterable_families = "kimi" ∷ [];
  refused_families = "codex" ∷ [];
}

reported : metering_report (some ("sol" ∷ "kimi" ∷ [])) ≡ ok two_models
unfolding metering_report verdicts_of metering_capability observe resolve_model usd_estimate
reported = refl

metering_report-splits_example :
    (two_models.inspected ≡ length {A = String} ("sol" ∷ "kimi" ∷ []))
    × (count_of (λ y. "kimi-k3" =? y) two_models.meterable_ids
        ≡ count_of (on_verdict (λ v. v.meterable && "kimi-k3" =? v.model_id)) ("sol" ∷ "kimi" ∷ []))
    × (count_of (λ y. "kimi-k3" =? y) two_models.refused_ids
        ≡ count_of
            (on_verdict (λ v. not v.meterable && "kimi-k3" =? v.model_id))
            ("sol" ∷ "kimi" ∷ []))
    × (contains "codex" two_models.meterable_families
        ≡ any_of (on_verdict (λ v. v.meterable && "codex" =? v.family)) ("sol" ∷ "kimi" ∷ []))
    × (contains "codex" two_models.refused_families ≡ (
        any_of (on_verdict (λ v. not v.meterable && "codex" =? v.family)) ("sol" ∷ "kimi" ∷ [])
        && not
            (any_of (on_verdict (λ v. v.meterable && "codex" =? v.family)) ("sol" ∷ "kimi" ∷ []))))
metering_report-splits_example =
    metering_report-splits ("sol" ∷ "kimi" ∷ []) two_models "kimi-k3" "codex" reported
