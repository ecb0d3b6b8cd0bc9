-- ===== src/UsageLedger/Stamp.antt =====
-- usage_ledger.py, `stamp_provenance`, `stamp_invocation_mode` and `recovered_tokens_in`, on the rows of
-- the two files. What is modelled is the rows that the functions label and the counts over all rows; the
-- counts by arm and the file that is written are not.
pub mod Labels
mod Tests
use model_eval.Prelude.{
  ℕ, ◌+◌, String, Bool, true, false, ◌&&◌, Option, none, some, List, [], ◌∷◌, string_key, ◌=?◌,
  lookup, or_else, Tally, bump, if◌then◌else◌, Result, ok, err, ◌>>=◌,
}
use model_eval.Rows.{Row}
use model_eval.Registry.{RegistryError, model_family}
use model_eval.UsageLedger.{tokens_in_status, parser_version_at, invocation_mode, holds}
use model_eval.UsageLedger.Entry.{UsageRow}

-- `{u["run_id"]: u for u in … if u.get("kind", "worker") == "worker"}.get(run_id)`: the last one counts.
abbrev pub worker_row : Option String → List UsageRow → Option UsageRow
worker_row none ledger = none
worker_row (some rid) [] = none
worker_row (some rid) (u ∷ ledger) = elim (worker_row (some rid) ledger) [
  | some later ↦ some later
  | none ↦ if u.kind =? "worker" && u.run_id =? rid then some u else none
]

abbrev pub status_in : Option UsageRow → Option String
status_in none = none
status_in (some led) = some led.retrofit_status

abbrev pub version_of : Row → ℕ
version_of row = elim row.usage_parser_version [
  | some version ↦ version
  | none ↦ parser_version_at row.ts
]

-- `registry.model_family(row.get("model"))`, where null is no model that is known.
abbrev pub family_of : Option String → Result RegistryError String
family_of none = err (RegistryError.unknown_model "None")
family_of (some model) = model_family model

abbrev pub stamped : List UsageRow → Row → String → Row
stamped ledger row family = record row {
  usage_parser_version = some (version_of row);
  tokens_in_status =
      some (tokens_in_status family (version_of row) (status_in (worker_row row.run_id ledger)));
}

unfoldable pub stamp_provenance : List UsageRow → List Row → Result RegistryError (List Row)
stamp_provenance ledger [] = ok []
stamp_provenance ledger (row ∷ rows) = do
  family ← family_of row.model
  rest ← stamp_provenance ledger rows
  ok (stamped ledger row family ∷ rest)

-- The disposition that a stamped row is counted under.
abbrev pub status_of : Row → String
status_of row = or_else row.tokens_in_status ""

abbrev pub tokens_in_statuses : List String
tokens_in_statuses = "measured" ∷ "recovered_in_ledger" ∷ "quarantined" ∷ []

unfoldable pub count_statuses : List Row → Tally String → Tally String
count_statuses [] report = report
count_statuses (row ∷ rows) report = count_statuses rows (bump (status_of row) report)

-- `except ValueError: family = None`
abbrev pub mode_of_family : Result RegistryError String → String
mode_of_family (ok family) = invocation_mode family
mode_of_family (err e) = "unknown"

abbrev pub mode_stamped : Row → Row
mode_stamped row = elim row.invocation_mode [
  | some present ↦ row
  | none ↦ record row { invocation_mode = some (some (mode_of_family (family_of row.model))) }
]

unfoldable pub stamp_invocation_mode : List Row → List Row
stamp_invocation_mode [] = []
stamp_invocation_mode (row ∷ rows) = mode_stamped row ∷ stamp_invocation_mode rows

-- The dict of `recovered_tokens_in`, asked for a run id: the last row that is offered counts.
unfoldable pub recovered_tokens_in : List UsageRow → String → Option ℕ
recovered_tokens_in [] rid = none
recovered_tokens_in (u ∷ ledger) rid = elim (recovered_tokens_in ledger rid) [
  | some later ↦ some later
  | none ↦
      if u.kind =? "worker" && u.retrofit_status =? "measured" && u.run_id =? rid
      then some u.tokens_in
      else none
]
