-- ===== src/TokenUnits.antt =====
-- runner/token_units.py: the per-request series of a run, its candidate figures, and the independent
-- check of the ledger against it. Session logs are given as their events; where the logs lie and how
-- their lines are decoded is not modelled.
mod Series
pub mod Codex
pub mod Check
mod Tests
unfoldable pub use Series.*
use model_eval.Prelude.{
  ℕ, zero, suc, ◌+◌, ◌-◌, ◌*◌, max, String, Bool, true, false, ◌&&◌, not, Option, none, some, List,
  [], ◌∷◌, ◌++◌, map, string_key, ◌=?◌, contains, ◌==◌, leb, if◌then◌else◌, lookup, length, or_else,
  Result, ok, err, Key, keep,
}
use model_eval.Prelude.Int.{ℤ, pos, ◌-ℤ◌, same_ℤ}

pub data CheckStatus : Type 0 where
  no_independent_record agree discrepancy agree_after_attribution : CheckStatus

pub record Crosscheck : Type 0 where
  pub status : CheckStatus
  pub agrees : Option Bool
  pub ledger_tokens_in : ℤ
  pub ledger_tokens_out : ℤ
  pub rederived : Option (ℤ × ℤ)
  pub delta : Option (ℤ × ℤ)

-- `totals(s)`
unfoldable pub totals : List Req → ℤ × ℤ
unfolding figures
totals series = ((figures series).session_total, pos (figures series).tokens_out)

abbrev pub same_totals : ℤ × ℤ → ℤ × ℤ → Bool
same_totals (a, b) (c, d) = same_ℤ a c && same_ℤ b d

-- The first of the alternates that reproduces the ledger.
unfoldable pub attributed : ℤ × ℤ → List (List Req) → Option (ℤ × ℤ)
unfolding totals
attributed ledger [] = none
attributed ledger (alt ∷ alternates) =
    if same_totals (totals alt) ledger then some (totals alt) else attributed ledger alternates

abbrev pub verdict : CheckStatus → Bool → ℤ × ℤ → ℤ × ℤ → Crosscheck
verdict status agrees ledger found = record {
  status = status;
  agrees = some agrees;
  ledger_tokens_in = ledger.0;
  ledger_tokens_out = ledger.1;
  rederived = some found;
  delta = some (found.0 -ℤ ledger.0, found.1 -ℤ ledger.1);
}

abbrev pub unrecorded : ℤ × ℤ → Crosscheck
unrecorded ledger = record {
  status = CheckStatus.no_independent_record;
  agrees = none;
  ledger_tokens_in = ledger.0;
  ledger_tokens_out = ledger.1;
  rederived = none;
  delta = none;
}

-- `not series` holds of no record and of an empty one.
unfoldable pub crosscheck : ℤ × ℤ → Option (List Req) → List (List Req) → Crosscheck
unfolding attributed totals
crosscheck ledger none alternates = unrecorded ledger
crosscheck ledger (some []) alternates = unrecorded ledger
crosscheck ledger (some (r ∷ requests)) alternates =
    let series = r ∷ requests in
    if same_totals (totals series) ledger
    then verdict CheckStatus.agree true ledger (totals series)
    else elim (attributed ledger alternates) [
      | none ↦ verdict CheckStatus.discrepancy false ledger (totals series)
      | some found ↦ verdict CheckStatus.agree_after_attribution true ledger found
    ]

pub data SessionLog : Type 0 where
  claude_session_log codex_rollout : SessionLog

abbrev pub session_log_families : List (String × SessionLog)
session_log_families =
    ("claude", SessionLog.claude_session_log)
    ∷ ("kimi", SessionLog.claude_session_log)
    ∷ ("local", SessionLog.claude_session_log)
    ∷ ("codex", SessionLog.codex_rollout)
    ∷ []

pub data UndeclaredSession : Type 0 where
  undeclared_session : String → UndeclaredSession

unfoldable pub session_log_kind : String → Result UndeclaredSession SessionLog
session_log_kind family = elim (lookup family session_log_families) [
  | none ↦ err (undeclared_session family)
  | some kind ↦ ok kind
]
