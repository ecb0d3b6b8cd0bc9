-- ===== src/CorpusGates.antt =====
-- runner/corpus_gates.py: whether a row's numbers may be published.
pub mod Partition
mod Tests
use model_eval.Prelude.{
  ℕ, zero, ◌-◌, String, Bool, true, false, Option, none, some, List, [], ◌∷◌, ◌++◌, string_key,
  ◌=?◌, or_else, if◌then◌else◌, length, Tally, bump,
}
use model_eval.Rows.{Row}

abbrev pub summarizable_exit_reason : String
summarizable_exit_reason = "ok"

abbrev pub tokens_in_usable_status : String
tokens_in_usable_status = "measured"

abbrev pub tokens_in_recoverable_status : String
tokens_in_recoverable_status = "recovered_in_ledger"

-- `row.get(key) == text`
abbrev pub holds_text : Option String → String → Bool
holds_text none text = false
holds_text (some value) text = value =? text

unfoldable pub summarizable : Row → Bool
summarizable row = holds_text row.exit_reason summarizable_exit_reason

unfoldable pub tokens_in_usable : Row → Bool
tokens_in_usable row = holds_text row.tokens_in_status tokens_in_usable_status

unfoldable pub tokens_in_recoverable : Row → Bool
tokens_in_recoverable row = holds_text row.tokens_in_status tokens_in_recoverable_status

abbrev mode_name : Option (Option String) → String
mode_name none = "unstamped"
mode_name (some none) = "inapplicable"
mode_name (some (some mode)) = mode

unfoldable pub invocation_mode_of : Row → String
invocation_mode_of row = mode_name row.invocation_mode

-- `r.get(reason_key) or "unstamped"`
abbrev pub reason_or_unstamped : Option String → String
reason_or_unstamped none = "unstamped"
reason_or_unstamped (some reason) = if reason =? "" then "unstamped" else reason

module _ {ℓ} {A : Type ℓ} (predicate : A → Bool) (reason : A → Option String) where
  -- The loop of `partition`, on what it has kept and counted.
  unfoldable pub partition_step : List A → List A × Tally String → List A × Tally String
  partition_step [] acc = acc
  partition_step (r ∷ rows) (kept, excluded) = partition_step rows (
      if predicate r
      then (kept ++ r ∷ [], excluded)
      else (kept, bump (reason_or_unstamped (reason r)) excluded))

  unfoldable pub partition : List A → List A × Tally String
  unfolding partition_step
  partition rows = partition_step rows ([], [])

pub summarizable_rows : List Row → List Row × Tally String
unfolding summarizable partition
summarizable_rows = partition summarizable (λ row. row.exit_reason)

unfoldable pub tokens_in_rows : List Row → List Row × Tally String
unfolding tokens_in_usable partition
tokens_in_rows = partition tokens_in_usable (λ row. row.tokens_in_status)

-- What `format_exclusions` prints: one of three sentences, with its numbers.
pub data ExclusionReport : Type 0 where
  no_rows_inspected : ExclusionReport
  nothing_to_exclude : ℕ → ℕ → ExclusionReport
  exclusions : ℕ → ℕ → ℕ → Tally String → ExclusionReport

pub format_exclusions : ℕ → ℕ → Tally String → ExclusionReport
format_exclusions zero kept excluded = ExclusionReport.no_rows_inspected
format_exclusions n_in kept [] = ExclusionReport.nothing_to_exclude n_in kept
format_exclusions n_in kept excluded = ExclusionReport.exclusions n_in kept (n_in - kept) excluded
