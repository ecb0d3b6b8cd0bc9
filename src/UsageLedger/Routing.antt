-- ===== src/UsageLedger/Routing.antt =====
-- usage_ledger.py: the routing tables cover the registry, and `tokens_in_status` is fail-closed.
use model_eval.Prelude.{
  ℕ, ◌≤◌, ◌<◌, ◌≡◌, ◌↔◌, ◌⊎◌, refl, Bool, true, String, Option, none, some, arith, eq_iff, ok,
  is_some, lookup, all_of, ◌&&◌, not, Option-cases, ◌≢◌, inl, inr, ◌=?◌, string_key,
}
use model_eval.Registry.{Spec, models, resolve_model}
use model_eval.Registry.Resolve.{resolved-passes}
use model_eval.UsageLedger.{
  ParseBranch, parse_branch, invocation_mode, family_parse_branch, tokens_in_status,
}

-- A row is `measured` exactly when the fixed parser or the codex branch read it; it is
-- `recovered_in_ledger` exactly when neither did and the ledger measured it; and `quarantined`
-- exactly when neither did and the ledger did not.
pub tokens_in_status_lem :
    (family : String) (version : ℕ) (ledger : Option String)
    → ((tokens_in_status family version ledger ≡ "measured") ↔ ((2 ≤ version) ⊎ (family ≡ "codex")))
      × ((tokens_in_status family version ledger ≡ "recovered_in_ledger")
          ↔ ((version < 2) × (¬ (family ≡ "codex")) × (ledger ≡ some "measured")))
      × ((tokens_in_status family version ledger ≡ "quarantined")
          ↔ ((version < 2) × (¬ (family ≡ "codex")) × (¬ (ledger ≡ some "measured"))))
unfolding tokens_in_status
tokens_in_status_lem family version none = ground (
  arith,
  eq_iff family "codex",
  eq_iff "measured" "recovered_in_ledger",
  eq_iff "measured" "quarantined",
  eq_iff "recovered_in_ledger" "quarantined",
)
tokens_in_status_lem family version (some status) = ground (
  arith,
  eq_iff family "codex",
  eq_iff status "measured",
  eq_iff "measured" "recovered_in_ledger",
  eq_iff "measured" "quarantined",
  eq_iff "recovered_in_ledger" "quarantined",
)

-- Whether the tables of this module route a family.
routed : String → Spec → Bool
routed id spec =
    is_some (lookup spec.family family_parse_branch)
    && not (invocation_mode spec.family =? "unknown")

every_model_routed : all_of (λ (e : String × Spec). routed e.0 e.1) models ≡ true
unfolding routed invocation_mode
every_model_routed = refl

-- Every model that resolves has a declared parse branch and a known invocation mode.
pub resolved-routed :
    (model : String) (r : String × Spec)
    → resolve_model model ≡ ok r
    → ((b : ParseBranch) × (parse_branch r.1.family ≡ ok b))
      × (invocation_mode r.1.family ≢ "unknown")
unfolding parse_branch routed
resolved-routed model r h =
    let test : routed r.0 r.1 ≡ true = resolved-passes routed model r every_model_routed h in
    elim (Option-cases (lookup r.1.family family_parse_branch)) [
      | inl e ↦ absurd (ground arith)
      | inr (b, e) ↦
          ((b, rw (parse_branch, e)), ground (arith, eq_iff (invocation_mode r.1.family) "unknown"))
    ]
