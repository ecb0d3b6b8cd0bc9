-- ===== src/Sweep/Invoke/Loop.antt =====
-- run.py, `main`: every run of the loop over the pending runs, and the loop, leave such a trace.
use model_eval.Prelude.{
  ℕ, ◌+◌, ◌≡◌, refl, sym, ap, ◌∙◌, Bool, true, false, ◌&&◌, Option, none, some, List, [], ◌∷◌, ◌++◌,
  arith, string_key, is_some, if◌then◌else◌, Result, ok, err, Bool-cases, inl, inr,
}
use model_eval.Registry.{is_metered}
use model_eval.UsageLedger.Entry.{UsageRow}
use model_eval.Sweep.{Run, Defaults, SweepError, ResultRow, written, as_row, Corpus, from_registry}
use model_eval.Sweep.Execute.{Outside, execute_run}
use model_eval.Sweep.Execute.Honest.{execute_run-run_id}
use model_eval.Sweep.Gate.{Checks}
use model_eval.Sweep.Invoke.{
  Options, State, kimi_dollars, reaches_cap, append_rows, add_ran, spend, bill, finish_run, cap_run,
  run_metered, run_one, run_pending, stop,
}
use model_eval.Sweep.Invoke.Trace.{ok_or, is_metered_run, price_of, IsTrace, stay, join, one}

append_rows-results :
    (row : ResultRow) (u : Option UsageRow) (c : Corpus)
    → (append_rows (row, u) c).results ≡ c.results ++ written (as_row row) ∷ []
append_rows-results row none c = refl
append_rows-results row (some u) c = refl

metered_as :
    (run : Run) (row : ResultRow) (n : ℕ) (metered : Bool)
    → from_registry (is_metered run.model) ≡ ok metered
    → is_metered_run (record { run = run; row = row; spent_before = n }) ≡ metered
metered_as run row n metered e = ap (λ (x : Result SweepError Bool). ok_or false x) e

price_as :
    (run : Run) (row : ResultRow) (n : ℕ) (metered : Bool)
    → from_registry (is_metered run.model) ≡ ok metered
    → price_of (record { run = run; row = row; spent_before = n })
      ≡ (if metered then ok_or 0 (kimi_dollars row) else 0)
price_as run row n metered e =
    ap (λ (x : Bool). if x then ok_or 0 (kimi_dollars row) else 0) (metered_as run row n metered e)

spend-ran : (d : Result SweepError ℕ) (s : State) → (spend d s).ran ≡ s.ran
spend-ran (ok n) s = refl
spend-ran (err e) s = refl

spend-results :
    (d : Result SweepError ℕ) (s : State) → (spend d s).corpus.results ≡ s.corpus.results
spend-results (ok n) s = refl
spend-results (err e) s = refl

spend-recorded : (d : Result SweepError ℕ) (s : State) → (spend d s).recorded ≡ s.recorded
spend-recorded (ok n) s = refl
spend-recorded (err e) s = refl

spend-spent : (d : Result SweepError ℕ) (s : State) → (spend d s).spent ≡ s.spent + ok_or 0 d
spend-spent (ok n) s = refl
spend-spent (err e) s = omega arith

spend-IsTrace :
    (cap : Option ℕ) (run : Run) (row : ResultRow) (u : Option UsageRow) (s : State)
    (d : Result SweepError ℕ)
    → kimi_dollars row ≡ d
    → from_registry (is_metered run.model) ≡ ok true
    → (true && reaches_cap cap s.spent) ≡ false
    → row.run_id ≡ run.run_id
    → IsTrace cap (run ∷ []) s (spend d (add_ran run (row, u) s))
spend-IsTrace cap run row u s d k e f i = one cap run row s (spend d (add_ran run (row, u) s)) (
  spend-ran d (add_ran run (row, u) s),
  spend-results d (add_ran run (row, u) s) ∙ append_rows-results row u s.corpus,
  spend-recorded d (add_ran run (row, u) s),
  spend-spent d (add_ran run (row, u) s)
      ∙ ap (λ (x : ℕ). s.spent + x)
          (sym (price_as run row s.spent true e ∙ ap (λ (x : Result SweepError ℕ). ok_or 0 x) k)),
  ap (λ (x : Bool). x && reaches_cap cap s.spent) (metered_as run row s.spent true e) ∙ f,
  i,
)

bill-IsTrace :
    (cap : Option ℕ) (run : Run) (row : ResultRow) (u : Option UsageRow) (s : State)
    (metered : Bool)
    → from_registry (is_metered run.model) ≡ ok metered
    → (metered && reaches_cap cap s.spent) ≡ false
    → row.run_id ≡ run.run_id
    → IsTrace cap (run ∷ []) s (bill metered row (add_ran run (row, u) s))
bill-IsTrace cap run row u s false e f i = one cap run row s (add_ran run (row, u) s) (
  refl,
  append_rows-results row u s.corpus,
  refl,
  omega (arith, price_as run row s.spent false e),
  ap (λ (x : Bool). x && reaches_cap cap s.spent) (metered_as run row s.spent false e) ∙ f,
  i,
)
bill-IsTrace cap run row u s true e f i =
    spend-IsTrace cap run row u s (kimi_dollars row) refl e f i

finish-IsTrace :
    (cap : Option ℕ) (run : Run) (metered : Bool) (s : State) (o : Outside) (d : Defaults)
    (r : Result SweepError (ResultRow × Option UsageRow))
    → execute_run o run d ≡ r
    → from_registry (is_metered run.model) ≡ ok metered
    → (metered && reaches_cap cap s.spent) ≡ false
    → IsTrace cap (run ∷ []) s (finish_run metered run r s)
finish-IsTrace cap run metered s o d (err x) h e f =
    stay cap (run ∷ []) s (stop x s) refl refl refl refl
finish-IsTrace cap run metered s o d (ok (row, u)) h e f =
    bill-IsTrace cap run row u s metered e f (execute_run-run_id o run d row u h)

run_metered-IsTrace :
    (opts : Options) (c : Checks) (w : Run → Outside) (run : Run) (m : Result SweepError Bool)
    (s : State)
    → from_registry (is_metered run.model) ≡ m
    → IsTrace opts.max_usd (run ∷ []) s (run_metered opts c w run m s)
unfolding run_metered
run_metered-IsTrace opts c w run (err x) s e =
    stay opts.max_usd (run ∷ []) s (stop x s) refl refl refl refl
run_metered-IsTrace opts c w run (ok metered) s e =
    elim (Bool-cases (metered && reaches_cap opts.max_usd s.spent)) [
      | inl b ↦ rw b (stay opts.max_usd (run ∷ []) s (cap_run run s) refl refl refl refl)
      | inr b ↦ rw b (
          finish-IsTrace opts.max_usd run metered s (w run) c.defaults
            (execute_run (w run) run c.defaults) refl e b)
    ]

pub run_one-IsTrace :
    (opts : Options) (c : Checks) (w : Run → Outside) (run : Run) (s : State)
    → IsTrace opts.max_usd (run ∷ []) s (run_one opts c w run s)
unfolding run_one
run_one-IsTrace opts c w run s = elim (Bool-cases (is_some s.stopped)) [
  | inl b ↦ rw b (stay opts.max_usd (run ∷ []) s s refl refl refl refl)
  | inr b ↦ rw b (run_metered-IsTrace opts c w run (from_registry (is_metered run.model)) s refl)
]

pub run_pending-IsTrace :
    (opts : Options) (c : Checks) (w : Run → Outside) (runs : List Run) (s : State)
    → IsTrace opts.max_usd runs s (run_pending opts c w runs s)
unfolding run_pending
run_pending-IsTrace opts c w [] s = stay opts.max_usd [] s s refl refl refl refl
run_pending-IsTrace opts c w (run ∷ rest) s =
    join opts.max_usd run rest s (run_one opts c w run s)
      (run_pending opts c w rest (run_one opts c w run s)) (run_one-IsTrace opts c w run s)
      (run_pending-IsTrace opts c w rest (run_one opts c w run s))
