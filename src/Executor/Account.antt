-- ===== src/Executor/Account.antt =====
-- executor.py, the loop of `execute`: one outcome for each task, and a spend that is the price of the
-- rows that the ledger gained.
use model_eval.Prelude.{
  ℕ, ◌+◌, ◌≡◌, refl, false, none, some, String, List, [], ◌∷◌, ◌++◌, map, arith, string_key, eq_iff,
  ◌=?◌, lookup, or_else, ok, err, length, Option-cases, inl, inr,
}
use model_eval.Prelude.Int.{pos}
use model_eval.UsageLedger.{usd_estimate}
use model_eval.UsageLedger.Parse.{UsageDetail}
use model_eval.UsageLedger.Entry.{UsageRow}
use model_eval.SpendCap.{SpendError, Authorization, authorize, cost_of}
use model_eval.Executor.{invocation_paths, RunRequest, TaskOutcome, Run, ran, refused, unsupported}

-- What the loop saw at an outcome, with `spent` spent before it: its own price is 0 unless it ran.
abbrev pub Settles : RunRequest → String → ℕ → TaskOutcome → Type 0
Settles request family spent o = elim o.status [
  | ran ↦ (a : Authorization) × (authorize request.model request.cap_usd (pos spent) ≡ ok a)
  | refused ↦
      (o.usd ≡ 0)
      × ((e : SpendError) × (authorize request.model request.cap_usd (pos spent) ≡ err e))
  | unsupported ↦
      ((a : Authorization) × (authorize request.model request.cap_usd (pos spent) ≡ ok a))
      × (lookup family invocation_paths ≡ none)
]

abbrev pub AreSettled : RunRequest → String → ℕ → List TaskOutcome → Type 0
AreSettled request family spent [] = Unit
AreSettled request family spent (o ∷ os) =
    Settles request family spent o × AreSettled request family (spent + o.usd) os

-- The ids of the runs among the outcomes.
abbrev pub ran_ids : List TaskOutcome → List String
ran_ids [] = []
ran_ids (o ∷ os) = elim o.run_id [ none ↦ ran_ids os | some id ↦ id ∷ ran_ids os ]

abbrev pub row_ids : List UsageRow → List String
row_ids rows = map (λ (u : UsageRow). u.run_id) rows

-- The list prices of the rows, together.
abbrev pub cost_of_rows : List UsageRow → ℕ
cost_of_rows [] = 0
cost_of_rows (u ∷ rows) = or_else u.usd_estimate 0 + cost_of_rows rows

abbrev pub sum_usd : List TaskOutcome → ℕ
sum_usd [] = 0
sum_usd (o ∷ os) = o.usd + sum_usd os

-- From `s` to `s'` by these outcomes and rows.
pub record IsTrace (request : RunRequest) (family : String) (tasks : List String) (s s' : Run)
    : Type 0 where
  pub os : List TaskOutcome
  pub rows : List UsageRow
  pub outcomes : s'.outcomes ≡ s.outcomes ++ os
  pub ledger : s'.ledger ≡ s.ledger ++ rows
  pub in_order : map (λ (o : TaskOutcome). o.task_id) os ≡ tasks
  pub spent_usd : s'.spent ≡ s.spent + sum_usd os
  pub spent : s'.spent ≡ s.spent + cost_of_rows rows
  pub ledgered : s'.ledgered ≡ s.ledgered + length rows
  pub same_ids : row_ids rows ≡ ran_ids os
  pub settled : AreSettled request family s.spent os

no_empty_price :
    (d : UsageDetail)
    → usd_estimate "" d.tokens_in d.tokens_out d.cache_read_tokens d.cache_creation_tokens ≡ none
unfolding usd_estimate
no_empty_price d = refl

pub cost_of-eq-ok :
    (id : String) (d : UsageDetail) (usd : ℕ)
    → cost_of id d ≡ ok usd
    → ((id =? "") ≡ false)
      × (usd_estimate id d.tokens_in d.tokens_out d.cache_read_tokens d.cache_creation_tokens
          ≡ some usd)
unfolding cost_of
cost_of-eq-ok id d usd h =
    elim (Option-cases
      (usd_estimate id d.tokens_in d.tokens_out d.cache_read_tokens d.cache_creation_tokens)) [
        | inl e ↦ absurd (ground arith)
        | inr (p, e) ↦ ground (arith, eq_iff id "", no_empty_price d)
      ]
