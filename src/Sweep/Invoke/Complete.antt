-- ===== src/Sweep/Invoke/Complete.antt =====
-- run.py, `main`: the loop over the pending runs leaves none out.
use model_eval.Prelude.{
  ℕ, suc, ◌+◌, ◌≡◌, sym, subst, Bool, true, false, ◌&&◌, Option, none, List, [], ◌∷◌, ◌++◌, arith,
  count_of, is_some, if◌then◌else◌, Result, ok, err, Bool-cases, inl, inr,
}
use model_eval.Registry.{is_metered}
use model_eval.UsageLedger.Entry.{UsageRow}
use model_eval.Sweep.{Run, SweepError, ResultRow, from_registry}
use model_eval.Sweep.Execute.{Outside, execute_run}
use model_eval.Sweep.Gate.{Checks}
use model_eval.Sweep.Invoke.{
  Options, Ran, State, kimi_dollars, reaches_cap, add_ran, spend, finish_run, cap_run, run_metered,
  run_one, run_pending,
}

-- How many executed and skipped runs pass a test.
abbrev pub seen : (Run → Bool) → State → ℕ
seen p s = count_of (λ r. p r.run) s.ran + count_of p s.capped

-- A step that did not end the invocation saw one run more.
abbrev Goes : Run → State → State → Type 0
Goes run s t =
    t.stopped ≡ none
    → (s.stopped ≡ none) × ((p : Run → Bool) → seen p t ≡ seen p s + (if p run then 1 else 0))

count_of-snoc :
    {A : Type 0} (p : A → Bool) (xs : List A) (x : A)
    → count_of p (xs ++ x ∷ []) ≡ count_of p xs + (if p x then 1 else 0)
count_of-snoc p [] x = ground arith
count_of-snoc p (y ∷ ys) x = ground (arith, count_of-snoc p ys x)

spend-Goes :
    (run : Run) (row : ResultRow) (u : Option UsageRow) (s : State) (d : Result SweepError ℕ)
    → Goes run s (spend d (add_ran run (row, u) s))
spend-Goes run row u s (err e) h = absurd (ground (arith, h))
spend-Goes run row u s (ok n) h = (
  h,
  λ p. omega (
    arith,
    count_of-snoc (λ (r : Ran). p r.run) s.ran
        (record { run = run; row = row; spent_before = s.spent }),
  ),
)

finish-Goes :
    (run : Run) (metered : Bool) (r : Result SweepError (ResultRow × Option UsageRow)) (s : State)
    → Goes run s (finish_run metered run r s)
finish-Goes run metered (err e) s h = absurd (ground (arith, h))
finish-Goes run true (ok (row, u)) s h = spend-Goes run row u s (kimi_dollars row) h
finish-Goes run false (ok (row, u)) s h = (
  h,
  λ p. omega (
    arith,
    count_of-snoc (λ (r : Ran). p r.run) s.ran
        (record { run = run; row = row; spent_before = s.spent }),
  ),
)

metered-Goes :
    (opts : Options) (c : Checks) (w : Run → Outside) (run : Run) (m : Result SweepError Bool)
    (s : State)
    → Goes run s (run_metered opts c w run m s)
unfolding run_metered
metered-Goes opts c w run (err e) s = λ h. absurd (ground (arith, h))
metered-Goes opts c w run (ok metered) s =
    let t = finish_run metered run (execute_run (w run) run c.defaults) s in
    elim (Bool-cases (metered && reaches_cap opts.max_usd s.spent)) [
      | inl b ↦
          subst (λ (x : Bool). Goes run s (if x then cap_run run s else t)) (sym b)
            (λ h. (h, λ p. omega (arith, count_of-snoc p s.capped run)))
      | inr b ↦
          subst (λ (x : Bool). Goes run s (if x then cap_run run s else t)) (sym b)
            (finish-Goes run metered (execute_run (w run) run c.defaults) s)
    ]

run_one-Goes :
    (opts : Options) (c : Checks) (w : Run → Outside) (run : Run) (s : State)
    → Goes run s (run_one opts c w run s)
unfolding run_one
run_one-Goes opts c w run s =
    let t = run_metered opts c w run (from_registry (is_metered run.model)) s in
    elim (Bool-cases (is_some s.stopped)) [
      | inl b ↦
          subst (λ (x : Bool). Goes run s (if x then s else t)) (sym b)
            (λ h. absurd (ground (arith, h, b)))
      | inr b ↦
          subst (λ (x : Bool). Goes run s (if x then s else t)) (sym b)
            (metered-Goes opts c w run (from_registry (is_metered run.model)) s)
    ]

one_more :
    (b : Bool) (x y z n : ℕ)
    → x ≡ y + n
    → y ≡ z + (if b then 1 else 0)
    → x ≡ z + (if b then suc n else n)
one_more true x y z n h k = omega (arith, h, k)
one_more false x y z n h k = omega (arith, h, k)

-- An invocation whose loop over the pending runs no exception ended has executed, or left out for the
-- spend cap, each of them as often as it stands among the pending runs: for every test on runs, the
-- executed and the skipped runs that pass it grow by the pending runs that do.
pub run_pending_complete :
    (opts : Options) (c : Checks) (w : Run → Outside) (runs : List Run) (s : State)
    → (run_pending opts c w runs s).stopped ≡ none
    → (s.stopped ≡ none)
      × ((p : Run → Bool) → seen p (run_pending opts c w runs s) ≡ seen p s + count_of p runs)
unfolding run_pending
run_pending_complete opts c w [] s h = (h, λ p. omega arith)
run_pending_complete opts c w (run ∷ rest) s h =
    let t = run_one opts c w run s in
    let (later, counts) = run_pending_complete opts c w rest t h in
    let (now, one) = run_one-Goes opts c w run s later in
    (
      now,
      λ p.
          one_more (p run) (seen p (run_pending opts c w rest t)) (seen p t) (seen p s)
            (count_of p rest) (counts p) (one p),
    )
