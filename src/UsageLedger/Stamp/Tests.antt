-- ===== src/UsageLedger/Stamp/Tests.antt =====
-- usage_ledger.py, the stamps: a row of the old parser that the ledger measured.
use model_eval.Prelude.{◌≡◌, refl, none, some, [], ◌∷◌, ok}
use model_eval.Rows.{Row, blank}
use model_eval.Registry.{model_family, resolve_model}
use model_eval.UsageLedger.{tokens_in_status, parser_version_at}
use model_eval.UsageLedger.Entry.{UsageRow}
use model_eval.UsageLedger.Stamp.{stamp_provenance, stamped, status_of}

abbrev row : Row
row = record blank {
  run_id = some "a";
  model = some "claude-opus-5";
  ts = some "2026-07-01T00:00:00Z";
}

abbrev ledger_row : UsageRow
ledger_row = record {
  run_id = "a";
  ts = none;
  kind = "worker";
  judged_run_id = none;
  model = none;
  model_id = none;
  family = "claude";
  tokens_in = 90;
  tokens_out = 3;
  cache_read_tokens = 0;
  cache_creation_tokens = 0;
  scaffold_overhead_tokens = none;
  billing_mode = "subscription";
  usd_estimate = none;
  pricing_date = none;
  retrofit_status = "measured";
}

abbrev labelled : Row
labelled = record row {
  usage_parser_version = some 1;
  tokens_in_status = some "recovered_in_ledger";
}

stamps : stamp_provenance (ledger_row ∷ []) (row ∷ []) ≡ ok (labelled ∷ [])
unfolding stamp_provenance model_family resolve_model tokens_in_status parser_version_at
stamps = refl

is_recovered : status_of (stamped (ledger_row ∷ []) row "claude") ≡ "recovered_in_ledger"
unfolding tokens_in_status parser_version_at
is_recovered = refl
