-- ===== src/RunStatus.antt =====
-- runner/run_status.py: which rows a pass rate may count, and what happened to the others.
-- An exit reason is a text or absent; other JSON values in its place are not modelled.
pub mod Class
pub mod Rate
pub mod TurnCap
mod Tests
use model_eval.Prelude.{
  ℕ, String, ◌≡◌, refl, ◌↔◌, Bool, true, false, Option, none, some, List, [], ◌∷◌, ◌++◌, map, arith,
  Key, string_key, ◌=?◌, ◌==◌, ltb, if◌then◌else◌, lookup, keep, or_else, Tally, bump,
}
use model_eval.Prelude.Text.{split_on}
use model_eval.Rows.{Row}

pub data StatusClass : Type 0 where
  scored timeout turn_cap infra structural mock unclassified : StatusClass

-- The position in `_SEVERITY`, worst first.
unfoldable pub severity : StatusClass → ℕ
severity StatusClass.unclassified = 0
severity StatusClass.structural = 1
severity StatusClass.timeout = 2
severity StatusClass.turn_cap = 3
severity StatusClass.infra = 4
severity StatusClass.mock = 5
severity StatusClass.scored = 6

pub same_class_iff : (a b : StatusClass) → ((severity a == severity b) ≡ true) ↔ (a ≡ b)
unfolding severity
same_class_iff a b = ground arith

abbrev pub same_class : StatusClass → StatusClass → Bool
same_class a b = severity a == severity b

instance abbrev pub class_key : Key StatusClass
class_key = record { same = same_class; same_iff = same_class_iff }

abbrev pub exit_reason_class : List (String × StatusClass)
exit_reason_class =
    ("ok", StatusClass.scored)
    ∷ ("cap_exhausted", StatusClass.scored)
    ∷ ("timeout", StatusClass.timeout)
    ∷ ("turn_cap", StatusClass.turn_cap)
    ∷ ("cli_error", StatusClass.infra)
    ∷ ("auth_unavailable", StatusClass.infra)
    ∷ ("broker_failed", StatusClass.infra)
    ∷ ("no_completion", StatusClass.infra)
    ∷ ("kimi_key_missing", StatusClass.infra)
    ∷ ("verify_timeout", StatusClass.infra)
    ∷ ("driver_unsupported", StatusClass.infra)
    ∷ ("structurally_impossible", StatusClass.structural)
    ∷ ("mock", StatusClass.mock)
    ∷ ("mock_fail", StatusClass.mock)
    ∷ ("mock_patch_failed", StatusClass.mock)
    ∷ []

-- `EXIT_REASON_CLASS.get(p, UNCLASSIFIED)`
pub class_of : String → StatusClass
class_of p = or_else (lookup p exit_reason_class) StatusClass.unclassified

-- `min(classes, key=_SEVERITY.index)`, from the best class found so far.
pub worst : StatusClass → List StatusClass → StatusClass
worst c [] = c
worst c (d ∷ ds) = if ltb (severity d) (severity c) then worst d ds else worst c ds

abbrev pub non_empty : String → Bool
non_empty String.[] = false
non_empty (String.◌∷◌ c s) = true

-- `[p for p in str(exit_reason).split("+") if p]`
pub parts : String → List String
unfolding split_on
parts s = keep non_empty (split_on b'+' s)

pub worst_of : List StatusClass → StatusClass
unfolding worst
worst_of [] = StatusClass.unclassified
worst_of (c ∷ cs) = worst c cs

-- The text "" needs no case of its own: it has no part.
pub status_class : Option String → StatusClass
unfolding class_of worst_of parts
status_class none = StatusClass.unclassified
status_class (some s) = worst_of (map class_of (parts s))

pub in_denominator : Row → Bool
unfolding status_class severity
in_denominator row = status_class row.exit_reason =? StatusClass.scored

-- The loop of `partition_for_rate`, on the rows kept and the tally so far.
pub partition_step : List Row → List Row × Tally StatusClass → List Row × Tally StatusClass
unfolding status_class severity
partition_step [] acc = acc
partition_step (row ∷ rows) (kept, excluded) =
    let cls = status_class row.exit_reason in
    partition_step rows (
      if cls =? StatusClass.scored then (kept ++ row ∷ [], excluded) else (kept, bump cls excluded))

pub partition_for_rate : List Row → List Row × Tally StatusClass
unfolding partition_step
partition_for_rate rows = partition_step rows ([], [])

-- One round of the loop of `apply_turn_cap`.
pub cap_row : Option ℕ → Row → Row
cap_row none row = row
cap_row (some n) row = elim row.turns [
  | none ↦ row
  | some turns ↦
      if ltb n turns
      then record row {
        exit_reason_pre_turn_cap = some row.exit_reason;
        exit_reason = some "turn_cap";
      }
      else row
]

pub apply_turn_cap : List Row → Option ℕ → List Row
unfolding cap_row
apply_turn_cap rows n = map (cap_row n) rows
