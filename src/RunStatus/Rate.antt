-- ===== src/RunStatus/Rate.antt =====
-- run_status.py, `partition_for_rate`: nothing is dropped, and every exclusion is counted by class.
use model_eval.Prelude.{
  ◌+◌, ◌≡◌, Bool, false, List, [], ◌∷◌, ◌++◌, append_assoc, append-nil, arith, ◌=?◌, ◌∙◌,
  if◌then◌else◌, length, keep, count_of, Tally, total, tallied, bump, total-bump, tallied-bump,
  length-append,
}
use model_eval.Rows.{Row}
use model_eval.RunStatus.{
  StatusClass, class_key, status_class, in_denominator, partition_step, partition_for_rate,
}

-- Whether a row is excluded, and under this class.
abbrev pub excluded_as : StatusClass → Row → Bool
excluded_as c row = if in_denominator row then false else c =? status_class row.exit_reason

step-kept :
    (rows kept : List Row) (excluded : Tally StatusClass)
    → (partition_step rows (kept, excluded)).0 ≡ kept ++ keep in_denominator rows
unfolding partition_step in_denominator
step-kept [] kept excluded = rw append-nil
step-kept (row ∷ rows) kept excluded = ground (
  arith,
  step-kept rows (kept ++ row ∷ []) excluded,
  step-kept rows kept (bump (status_class row.exit_reason) excluded),
  append_assoc kept (row ∷ []) (keep in_denominator rows),
)

-- The kept rows are the rows in the denominator, in their order.
pub partition-kept : (rows : List Row) → (partition_for_rate rows).0 ≡ keep in_denominator rows
unfolding partition_for_rate
partition-kept rows = step-kept rows [] []

step-total :
    (rows kept : List Row) (excluded : Tally StatusClass)
    → let (kept', excluded') = partition_step rows (kept, excluded) in
      length kept' + total excluded' ≡ length kept + total excluded + length rows
unfolding partition_step
step-total [] kept excluded = omega arith
step-total (row ∷ rows) kept excluded =
    let cls = status_class row.exit_reason in
    ground (
      arith,
      step-total rows (kept ++ row ∷ []) excluded,
      length-append kept (row ∷ []),
      step-total rows kept (bump cls excluded),
      total-bump cls excluded,
    )

-- The kept rows are the rows in the denominator, in their order, and every row is either kept or counted
-- once.
pub partition_for_rate_lem :
    (rows : List Row)
    → let (kept, excluded) = partition_for_rate rows in
      (kept ≡ keep in_denominator rows) × (length kept + total excluded ≡ length rows)
partition_for_rate_lem rows =
    (partition-kept rows, unfold partition_for_rate in omega (arith, step-total rows [] []))

step-tallied :
    (c : StatusClass) (rows kept : List Row) (excluded : Tally StatusClass)
    → tallied c (partition_step rows (kept, excluded)).1
      ≡ tallied c excluded + count_of (excluded_as c) rows
unfolding partition_step in_denominator
step-tallied c [] kept excluded = omega arith
step-tallied c (row ∷ rows) kept excluded =
    let cls = status_class row.exit_reason in
    ground (
      arith,
      step-tallied c rows (kept ++ row ∷ []) excluded,
      step-tallied c rows kept (bump cls excluded),
      tallied-bump c cls excluded,
    )

-- The tally at a class is the number of rows that are excluded under it.
pub partition-tallied :
    (rows : List Row) (c : StatusClass)
    → tallied c (partition_for_rate rows).1 ≡ count_of (excluded_as c) rows
unfolding partition_for_rate
partition-tallied rows c = step-tallied c rows [] [] ∙ omega arith
