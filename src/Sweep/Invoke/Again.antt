-- ===== src/Sweep/Invoke/Again.antt =====
-- run.py, `main`: an invocation does not record again what an earlier one recorded.
use model_eval.Prelude.{
  ℕ, ◌≡◌, refl, sym, ap, ◌∙◌, subst, Bool, true, not, none, List, [], map, string_key, All,
  if◌then◌else◌, Result, ok, err, Bool-cases, inl, inr,
}
use model_eval.Broker.{KError}
use model_eval.ServingRegistry.{is_empty}
use model_eval.Sweep.{
  Run, SweepError, Line, Corpus, existing_ids, recorded_impossible_ids,
  recorded_driver_unsupported_ids,
}
use model_eval.Sweep.Execute.{Outside}
use model_eval.Sweep.Gate.{Checks, fate, Sorting, unsorted, sort_runs}
use model_eval.Sweep.Invoke.{
  Options, State, Invoked, rejected, begin, record_impossible, record_unsupported, expressible,
  check_k, dispatch_checked, invoke_result, invoke, in_environment, pending_of, run_pending,
}
use model_eval.Sweep.Invoke.Trace.{line_of}
use model_eval.Sweep.Invoke.Loop.{run_pending-IsTrace}
use model_eval.Sweep.Invoke.Complete.{run_pending_complete}
use model_eval.Sweep.Invoke.Settled.{
  Holds, All-Holds-more, cells-more, record_cells-hold, record_cells-idle,
}

-- All cells that cannot run are in the results.
abbrev Settled : Sorting → List Line → Type 0
Settled sorting lines =
    All (Holds "structurally_impossible" lines) sorting.impossible_runs
    × All (Holds "driver_unsupported" lines) sorting.unsupported_runs

cells-Settled :
    (w : Run → Outside) (sorting : Sorting) (s : State)
    → (record_unsupported w sorting (record_impossible w sorting s)).stopped ≡ none
    → Settled sorting (record_unsupported w sorting (record_impossible w sorting s)).corpus.results
cells-Settled w sorting s h =
    let t = record_impossible w sorting s in
    let (later, unsupported) =
      record_cells-hold w "driver_unsupported" (recorded_driver_unsupported_ids t.corpus.results)
        sorting.unsupported_runs t (λ r k. k) h in
    let (now, impossible) =
      record_cells-hold w "structurally_impossible" (recorded_impossible_ids s.corpus.results)
        sorting.impossible_runs s (λ r k. k) later in
    (
      cells-more w "driver_unsupported" (recorded_driver_unsupported_ids t.corpus.results)
          sorting.unsupported_runs t "structurally_impossible" sorting.impossible_runs impossible,
      unsupported,
    )

loop-Settled :
    (opts : Options) (c : Checks) (w : Run → Outside) (sorting : Sorting) (pending : List Run)
    (s : State)
    → Settled sorting s.corpus.results
    → Settled sorting (run_pending opts c w pending s).corpus.results
loop-Settled opts c w sorting pending s (a, b) =
    let h = run_pending-IsTrace opts c w pending s in
    subst (λ (x : List Line). Settled sorting x) (sym h.results)
      (
        All-Holds-more "structurally_impossible" s.corpus.results (map line_of h.new)
            sorting.impossible_runs a,
        All-Holds-more "driver_unsupported" s.corpus.results (map line_of h.new)
            sorting.unsupported_runs b,
      )

-- What an invocation that no exception ended leaves behind, where the matrix was accepted.
abbrev Leaves : Result SweepError Sorting → List Line → Type 0
Leaves (err e) lines = Unit
Leaves (ok sorting) lines = (is_empty sorting.bad_runs ≡ true) → Settled sorting lines

checked-Settled :
    (opts : Options) (c : Checks) (w : Run → Outside) (kept : List Run) (sorting : Sorting)
    (s : State) (k : Result KError ℕ)
    → (s.stopped ≡ none → Settled sorting s.corpus.results)
    → (dispatch_checked opts c w kept s k).state.stopped ≡ none
    → Settled sorting (dispatch_checked opts c w kept s k).state.corpus.results
checked-Settled opts c w kept sorting s (err e) f = f
checked-Settled opts c w kept sorting s (ok k) f =
    let pending = pending_of opts (existing_ids s.corpus.results) kept in
    let t = run_pending opts c w pending s in
    elim (Bool-cases opts.dry_run) [
      | inl d ↦
          subst
            (λ (b : Bool).
              (if b then s else t).stopped ≡ none
              → Settled sorting (if b then s else t).corpus.results)
            (sym d) f
      | inr d ↦
          subst
            (λ (b : Bool).
              (if b then s else t).stopped ≡ none
              → Settled sorting (if b then s else t).corpus.results)
            (sym d)
            (λ h.
              loop-Settled opts c w sorting pending s
                (f ((run_pending_complete opts c w pending s h).0)))
    ]

result-Leaves :
    (opts : Options) (c : Checks) (w : Run → Outside) (runs : List Run) (corpus : Corpus)
    (r : Result SweepError Sorting)
    → (invoke_result opts c w runs r (begin corpus)).state.stopped ≡ none
    → Leaves r (invoke_result opts c w runs r (begin corpus)).state.corpus.results
result-Leaves opts c w runs corpus (err e) = λ h. tt
result-Leaves opts c w runs corpus (ok sorting) =
    let rejection : Invoked = record { state = begin corpus; exit = rejected sorting.bad_runs } in
    let t = record_unsupported w sorting (record_impossible w sorting (begin corpus)) in
    let after = dispatch_checked opts c w (expressible sorting runs) t (check_k opts c) in
    λ h e.
      subst
        (λ (b : Bool).
          (if not b then rejection else after).state.stopped ≡ none
          → Settled sorting (if not b then rejection else after).state.corpus.results)
        (sym e)
        (checked-Settled opts c w (expressible sorting runs) sorting t (check_k opts c)
          (cells-Settled w sorting (begin corpus)))
        h

checked-recorded :
    (opts : Options) (c : Checks) (w : Run → Outside) (kept : List Run) (s : State)
    (k : Result KError ℕ)
    → (dispatch_checked opts c w kept s k).state.recorded ≡ s.recorded
checked-recorded opts c w kept s (err e) = refl
checked-recorded opts c w kept s (ok k) =
    let pending = pending_of opts (existing_ids s.corpus.results) kept in
    elim (Bool-cases opts.dry_run) [
      | inl d ↦ ap (λ (b : Bool). (if b then s else run_pending opts c w pending s).recorded) d
      | inr d ↦
          ap (λ (b : Bool). (if b then s else run_pending opts c w pending s).recorded) d
          ∙ (run_pending-IsTrace opts c w pending s).recorded
    ]

cells-idle :
    (w : Run → Outside) (sorting : Sorting) (corpus : Corpus)
    → Settled sorting corpus.results
    → record_unsupported w sorting (record_impossible w sorting (begin corpus)) ≡ begin corpus
cells-idle w sorting corpus (a, b) =
    ap (record_unsupported w sorting) (
      record_cells-idle w "structurally_impossible" sorting.impossible_runs (begin corpus)
        (recorded_impossible_ids corpus.results) a)
    ∙ record_cells-idle w "driver_unsupported" sorting.unsupported_runs (begin corpus)
        (recorded_driver_unsupported_ids corpus.results) b

result-recorded :
    (opts : Options) (c : Checks) (w : Run → Outside) (runs : List Run) (corpus : Corpus)
    (r : Result SweepError Sorting)
    → Leaves r corpus.results
    → (invoke_result opts c w runs r (begin corpus)).state.recorded ≡ []
result-recorded opts c w runs corpus (err e) h = refl
result-recorded opts c w runs corpus (ok sorting) h =
    let rejection : Invoked = record { state = begin corpus; exit = rejected sorting.bad_runs } in
    let t = record_unsupported w sorting (record_impossible w sorting (begin corpus)) in
    let after = dispatch_checked opts c w (expressible sorting runs) t (check_k opts c) in
    elim (Bool-cases (is_empty sorting.bad_runs)) [
      | inr b ↦ ap (λ (x : Bool). (if not x then rejection else after).state.recorded) b
      | inl b ↦
          ap (λ (x : Bool). (if not x then rejection else after).state.recorded) b
          ∙ checked-recorded opts c w (expressible sorting runs) t (check_k opts c)
          ∙ ap (λ (x : State). x.recorded) (cells-idle w sorting corpus (h b))
    ]

-- After an invocation that no exception ended, an invocation on the same matrix, with the same registry
-- rows, requested serving config, defaults and endpoint, and on the results that the first one left,
-- records no cell as impossible or unsupported, whatever its options and whatever its runs meet.
pub invoke-settled :
    (opts opts' : Options) (c : Checks) (w w' : Run → Outside) (runs : List Run) (corpus : Corpus)
    → (invoke opts c w runs corpus).state.stopped ≡ none
    → (invoke opts' c w' runs (invoke opts c w runs corpus).state.corpus).state.recorded ≡ []
unfolding invoke
invoke-settled opts opts' c w w' runs corpus h =
    result-recorded opts' c (in_environment opts' w') runs
      (invoke opts c w runs corpus).state.corpus (sort_runs (fate c) runs unsorted)
      (result-Leaves opts c (in_environment opts w) runs corpus (sort_runs (fate c) runs unsorted)
        h)
