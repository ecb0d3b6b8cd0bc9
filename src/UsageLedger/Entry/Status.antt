-- ===== src/UsageLedger/Entry/Status.antt =====
-- usage_ledger.py, `build_usage_row`: what its `retrofit_status` says.
use model_eval.Prelude.{
  ◌≡◌, ◌≢◌, ◌⊎◌, ◌↔◌, Bool, true, false, ◌&&◌, Option, none, some, String, arith, string_key,
  eq_iff, ◌==◌, or_else, is_some,
}
use model_eval.Rows.{Row}
use model_eval.UsageLedger.Parse.{UsageDetail}
use model_eval.UsageLedger.Entry.{counts_of, build_usage_row}

-- Whether the row itself stores no token.
abbrev pub stores_nothing : Row → Bool
stores_nothing row = or_else row.tokens_in 0 == 0 && or_else row.tokens_out 0 == 0

-- A ledger row is `measured` exactly when its output was parsed or it stores tokens and is of the codex
-- family; it is `not_applicable_zero_tokens` exactly when nothing was parsed and it stores none; and
-- `unfixable_floor_only` exactly when nothing was parsed and it stores tokens of another family.
pub retrofit_status_lem :
    (row : Row) (run_id family : String) (detail : Option UsageDetail) (model_id : Option String)
    (kind : String) (judged : Option String)
    → let status =
        (build_usage_row row run_id family detail model_id kind judged).retrofit_status in
      ((status ≡ "measured")
        ↔ ((is_some detail ≡ true) ⊎ ((stores_nothing row ≡ false) × (family ≡ "codex"))))
      × ((status ≡ "not_applicable_zero_tokens")
          ↔ ((is_some detail ≡ false) × (stores_nothing row ≡ true)))
      × ((status ≡ "unfixable_floor_only")
          ↔ ((is_some detail ≡ false) × (stores_nothing row ≡ false) × (family ≢ "codex")))
unfolding build_usage_row counts_of
retrofit_status_lem row run_id family none model_id kind judged = ground (
  arith,
  eq_iff family "codex",
  eq_iff "not_applicable_zero_tokens" "measured",
  eq_iff "unfixable_floor_only" "measured",
  eq_iff "unfixable_floor_only" "not_applicable_zero_tokens",
)
retrofit_status_lem row run_id family (some d) model_id kind judged = ground (
  arith,
  eq_iff "not_applicable_zero_tokens" "measured",
  eq_iff "unfixable_floor_only" "measured",
)
