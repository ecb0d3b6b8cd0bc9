-- ===== src/CorpusGates/Partition.antt =====
-- corpus_gates.py, `partition`: what is kept, what is counted, and that nothing goes missing.
use model_eval.Prelude.{
  ◌+◌, ◌≡◌, Bool, false, Option, String, List, [], ◌∷◌, ◌++◌, append_assoc, append-nil, arith,
  string_key, ◌=?◌, if◌then◌else◌, length, keep, count_of, Tally, total, tallied, bump, total-bump,
  tallied-bump, length-append,
}
use model_eval.CorpusGates.{partition, partition_step, reason_or_unstamped}

module _ {ℓ} {A : Type ℓ} (predicate : A → Bool) (reason : A → Option String) where
  abbrev pub excluded_for : String → A → Bool
  excluded_for key r = if predicate r then false else key =? reason_or_unstamped (reason r)

  step-kept :
      (rows kept : List A) (excluded : Tally String)
      → (partition_step predicate reason rows (kept, excluded)).0 ≡ kept ++ keep predicate rows
  unfolding partition_step
  step-kept [] kept excluded = rw append-nil
  step-kept (r ∷ rows) kept excluded = ground (
    arith,
    step-kept rows (kept ++ r ∷ []) excluded,
    step-kept rows kept (bump (reason_or_unstamped (reason r)) excluded),
    append_assoc kept (r ∷ []) (keep predicate rows),
  )

  step-total :
      (rows kept : List A) (excluded : Tally String)
      → let (kept', excluded') = partition_step predicate reason rows (kept, excluded) in
        length kept' + total excluded' ≡ length kept + total excluded + length rows
  unfolding partition_step
  step-total [] kept excluded = omega arith
  step-total (r ∷ rows) kept excluded = ground (
    arith,
    step-total rows (kept ++ r ∷ []) excluded,
    length-append kept (r ∷ []),
    step-total rows kept (bump (reason_or_unstamped (reason r)) excluded),
    total-bump (reason_or_unstamped (reason r)) excluded,
  )

  step-tallied :
      (key : String) (rows kept : List A) (excluded : Tally String)
      → tallied key (partition_step predicate reason rows (kept, excluded)).1
        ≡ tallied key excluded + count_of (excluded_for key) rows
  unfolding partition_step
  step-tallied key [] kept excluded = omega arith
  step-tallied key (r ∷ rows) kept excluded =
      let why = reason_or_unstamped (reason r) in
      ground (
        arith,
        step-tallied key rows (kept ++ r ∷ []) excluded,
        step-tallied key rows kept (bump why excluded),
        tallied-bump key why excluded,
      )

  -- The kept rows are those that pass, in their order; every row is kept or counted once; and the
  -- tally at a key is the number of rows that fail with that reason.
  pub partition_lem :
      (rows : List A)
      → let (kept, excluded) = partition predicate reason rows in
        (kept ≡ keep predicate rows)
        × (length kept + total excluded ≡ length rows)
        × ((key : String) → tallied key excluded ≡ count_of (excluded_for key) rows)
  unfolding partition
  partition_lem rows = (
    step-kept rows [] [],
    omega (arith, step-total rows [] []),
    λ key. omega (arith, step-tallied key rows [] []),
  )
