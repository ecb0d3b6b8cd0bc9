-- ===== src/Sweep/Invoke/Resume.antt =====
-- run.py, `main`: what a whole invocation adds to the results, and which runs it executes.
use model_eval.Prelude.{
  ℕ, ◌≤◌, ◌≡◌, refl, sym, ap, ◌∙◌, subst, String, Bool, true, not, Option, List, ◌++◌, map, arith,
  string_key, ◌=?◌, contains, count_of, All, if◌then◌else◌, Result, ok, err, append_assoc,
  append-nil, Bool-cases, inl, inr,
}
use model_eval.Broker.{KError}
use model_eval.Sweep.{Run, SweepError, ResultRow, Line, Corpus, existing_ids}
use model_eval.Sweep.Ids.{count_of-keep, count_of-limited, count_of-without}
use model_eval.Sweep.Execute.{Outside}
use model_eval.Sweep.Gate.{Checks, fate, Sorting, unsorted, sort_runs}
use model_eval.ServingRegistry.{is_empty}
use model_eval.Sweep.Invoke.{
  Options, Ran, State, Invoked, rejected, begin, stop, record_impossible, record_unsupported,
  expressible, without, pending_of, run_ids, dispatch, check_k, dispatch_checked, invoke_result,
  invoke, in_environment, run_pending,
}
use model_eval.Sweep.Invoke.Trace.{line_of, cost, Chain, IsTrace}
use model_eval.Sweep.Invoke.Loop.{run_pending-IsTrace}
use model_eval.Sweep.Invoke.Record.{status_line}
use model_eval.Sweep.Invoke.Recorded.{
  IsStatus, IsRecorded, begin-IsRecorded, recorded-existing_ids, cells-IsRecorded,
}

-- What an invocation leaves.
pub record IsInvocation (cap : Option ℕ) (runs : List Run) (corpus : Corpus) (t : State)
    : Type 0 where
  pub results :
      t.corpus.results ≡ corpus.results ++ (map status_line t.recorded ++ map line_of t.ran)
  pub statuses : All IsStatus t.recorded
  pub spent : t.spent ≡ cost t.ran
  pub chain : Chain cap 0 t.ran
  pub named : All (λ r. r.row.run_id ≡ r.run.run_id) t.ran
  pub within : (p : Run → Bool) → count_of (λ r. p r.run) t.ran ≤ count_of p runs
  pub fresh :
      (id : String)
      → contains id (existing_ids corpus.results) ≡ true
      → count_of (λ r. r.run.run_id =? id) t.ran ≡ 0

idle :
    (cap : Option ℕ) (runs : List Run) (corpus : Corpus) (s : State)
    → IsRecorded corpus s
    → IsInvocation cap runs corpus s
idle cap runs corpus s a = record {
  results =
      a.results
      ∙ ap (λ (x : List Line). corpus.results ++ x)
          (sym (append-nil (map status_line s.recorded))
            ∙ ap (λ (x : List Ran). map status_line s.recorded ++ map line_of x) (sym a.ran));
  statuses = a.statuses;
  spent = a.spent ∙ ap cost (sym a.ran);
  chain = subst (λ (x : List Ran). Chain cap 0 x) (sym a.ran) tt;
  named = subst (λ (x : List Ran). All (λ r. r.row.run_id ≡ r.run.run_id) x) (sym a.ran) tt;
  within = λ p.
      subst (λ (x : List Ran). count_of (λ r. p r.run) x ≤ count_of p runs) (sym a.ran)
        (omega arith);
  fresh = λ id h. ap (λ (x : List Ran). count_of (λ r. r.run.run_id =? id) x) a.ran;
}

traced :
    (opts : Options) (runs kept : List Run) (corpus : Corpus) (s t : State)
    → ((p : Run → Bool) → count_of p kept ≤ count_of p runs)
    → IsRecorded corpus s
    → IsTrace opts.max_usd (pending_of opts (existing_ids s.corpus.results) kept) s t
    → IsInvocation opts.max_usd runs corpus t
traced opts runs kept corpus s t l a h =
    let done = existing_ids s.corpus.results in
    let pending = pending_of opts done kept in
    let same : h.new ≡ t.ran = sym (h.ran ∙ ap (λ (x : List Ran). x ++ h.new) a.ran) in
    record {
      results =
          h.results
          ∙ ap (λ (x : List Line). x ++ map line_of h.new) a.results
          ∙ append_assoc corpus.results (map status_line s.recorded) (map line_of h.new)
          ∙ ap (λ (x : List Line). corpus.results ++ x)
              (ap (λ (x : List ResultRow). map status_line x ++ map line_of h.new) (sym h.recorded)
                ∙ ap (λ (x : List Ran). map status_line t.recorded ++ map line_of x) same);
      statuses = subst (λ (x : List ResultRow). All IsStatus x) (sym h.recorded) a.statuses;
      spent = omega (arith, h.spent, a.spent, ap cost same);
      chain =
          subst (λ (x : List Ran). Chain opts.max_usd 0 x) same
            (subst (λ (n : ℕ). Chain opts.max_usd n h.new) a.spent h.chain);
      named = subst (λ (x : List Ran). All (λ r. r.row.run_id ≡ r.run.run_id) x) same h.named;
      within = λ p.
          subst (λ (x : List Ran). count_of (λ r. p r.run) x ≤ count_of p runs) same
            (omega (
              arith,
              h.within p,
              count_of-limited p opts.limit (without done kept),
              count_of-keep p (λ run. not (contains run.run_id done)) kept,
              l p,
            ));
      fresh = λ id k.
          subst (λ (x : List Ran). count_of (λ r. r.run.run_id =? id) x ≡ 0) same
            (omega (
              arith,
              h.within (λ run. run.run_id =? id),
              count_of-limited (λ run. run.run_id =? id) opts.limit (without done kept),
              count_of-without id done kept
                  (ap (λ (x : List String). contains id x) (recorded-existing_ids corpus s a) ∙ k),
            ));
    }

dispatch-IsInvocation :
    (opts : Options) (c : Checks) (w : Run → Outside) (runs kept : List Run) (corpus : Corpus)
    (s : State)
    → ((p : Run → Bool) → count_of p kept ≤ count_of p runs)
    → IsRecorded corpus s
    → IsInvocation opts.max_usd runs corpus (dispatch opts c w kept s).state
dispatch-IsInvocation opts c w runs kept corpus s l a =
    let pending = pending_of opts (existing_ids s.corpus.results) kept in
    let t = run_pending opts c w pending s in
    elim (Bool-cases opts.dry_run) [
      | inl d ↦
          subst (λ (b : Bool). IsInvocation opts.max_usd runs corpus (if b then s else t)) (sym d)
            (idle opts.max_usd runs corpus s a)
      | inr d ↦
          subst (λ (b : Bool). IsInvocation opts.max_usd runs corpus (if b then s else t)) (sym d)
            (traced opts runs kept corpus s t l a (run_pending-IsTrace opts c w pending s))
    ]

checked-IsInvocation :
    (opts : Options) (c : Checks) (w : Run → Outside) (runs kept : List Run) (corpus : Corpus)
    (s : State) (k : Result KError ℕ)
    → ((p : Run → Bool) → count_of p kept ≤ count_of p runs)
    → IsRecorded corpus s
    → IsInvocation opts.max_usd runs corpus (dispatch_checked opts c w kept s k).state
checked-IsInvocation opts c w runs kept corpus s (err e) l a = idle opts.max_usd runs corpus s a
checked-IsInvocation opts c w runs kept corpus s (ok k) l a =
    dispatch-IsInvocation opts c w runs kept corpus s l a

count_of-expressible :
    (p : Run → Bool) (sorting : Sorting) (runs : List Run)
    → count_of p (expressible sorting runs) ≤ count_of p runs
count_of-expressible p sorting runs =
    let inner = without (run_ids sorting.impossible_runs) runs in
    omega (
      arith,
      count_of-keep p (λ run. not (contains run.run_id (run_ids sorting.unsupported_runs))) inner,
      count_of-keep p (λ run. not (contains run.run_id (run_ids sorting.impossible_runs))) runs,
    )

sorted-IsInvocation :
    (opts : Options) (c : Checks) (w : Run → Outside) (runs : List Run) (corpus : Corpus)
    (r : Result SweepError Sorting)
    → IsInvocation opts.max_usd runs corpus (invoke_result opts c w runs r (begin corpus)).state
sorted-IsInvocation opts c w runs corpus (err e) =
    idle opts.max_usd runs corpus (stop e (begin corpus)) (record {
      results = sym (append-nil corpus.results);
      statuses = tt;
      ran = refl;
      spent = refl;
    })
sorted-IsInvocation opts c w runs corpus (ok sorting) =
    let started = begin-IsRecorded corpus in
    let t = record_unsupported w sorting (record_impossible w sorting (begin corpus)) in
    let rejection : Invoked = record { state = begin corpus; exit = rejected sorting.bad_runs } in
    let after = dispatch_checked opts c w (expressible sorting runs) t (check_k opts c) in
    elim (Bool-cases (not (is_empty sorting.bad_runs))) [
      | inl b ↦
          subst
            (λ (x : Bool).
              IsInvocation opts.max_usd runs corpus (if x then rejection else after).state)
            (sym b) (idle opts.max_usd runs corpus (begin corpus) started)
      | inr b ↦
          subst
            (λ (x : Bool).
              IsInvocation opts.max_usd runs corpus (if x then rejection else after).state)
            (sym b)
            (checked-IsInvocation opts c w runs (expressible sorting runs) corpus t (check_k opts c)
              (λ p. count_of-expressible p sorting runs)
              (cells-IsRecorded corpus w sorting (begin corpus) started))
    ]

-- What an invocation of the driver does to the results: it appends one row for each cell that it records
-- as impossible or unsupported and then one for each run that it executes, and changes no row. An
-- executed run's row has the run's id. No run is executed more often than it stands in the matrix, and
-- none whose id was already done in the results. The metered spend is the sum of the prices of the
-- executed runs, each metered one of which began below the cap.
pub invoke-IsInvocation :
    (opts : Options) (c : Checks) (w : Run → Outside) (runs : List Run) (corpus : Corpus)
    → IsInvocation opts.max_usd runs corpus (invoke opts c w runs corpus).state
unfolding invoke
invoke-IsInvocation opts c w runs corpus =
    sorted-IsInvocation opts c (in_environment opts w) runs corpus
      (sort_runs (fate c) runs unsorted)
