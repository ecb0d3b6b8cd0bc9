-- ===== src/Executor/Gate.antt =====
-- executor.py, `execute`: what must hold before the command runs for the first time, however the run
-- then ends.
use model_eval.Prelude.{
  ◌≡◌, ◌≢◌, ◌⊎◌, refl, ap, true, Option, none, some, String, List, [], ◌∷◌, arith, string_key,
  eq_iff, lookup, is_some, ok, Result-cases, Option-cases, Bool-cases, inl, inr,
}
use model_eval.Prelude.Int.{pos}
use model_eval.Registry.{resolve_model}
use model_eval.UsageLedger.Entry.{UsageRow}
use model_eval.SpendCap.{SpendError, Authorization, authorize}
use model_eval.Executor.{
  World, InvocationPath, invocation_paths, invocation_env, RunRequest, Run, on_refusal, invoke_task,
  run_task, run_tasks, execute, start, or_text, acknowledged,
}
use model_eval.Executor.Environment.{invocation_env-lookup}

-- Either nothing has been invoked, spent or written, or the first permission was given and there is a key.
abbrev IsGated : RunRequest → List UsageRow → Run → Type 0
IsGated request ledger s =
    ((s.invocations ≡ 0) × (s.spent ≡ 0) × (s.ledger ≡ ledger))
    ⊎ (((a : Authorization) × (authorize request.model request.cap_usd (pos 0) ≡ ok a))
        × (request.api_key ≢ ""))

module _ {Text : Type 0} (w : World Text) (request : RunRequest) (model_id family prefix : String)
    (ledger : List UsageRow) where
  refusal-IsGated :
      (task : String) (e : SpendError) (s : Run)
      → IsGated request ledger s
      → IsGated request ledger (on_refusal task model_id e s)
  refusal-IsGated task (SpendError.unresolved x) s h = h
  refusal-IsGated task (SpendError.unmeterable m f r) s h = h
  refusal-IsGated task (SpendError.no_cap_declared m f) s h = h
  refusal-IsGated task (SpendError.under_floor m f r n) s h = h

  invoke_task-IsGated :
      (task : String) (path : InvocationPath) (a : Authorization) (s : Run)
      → authorize request.model request.cap_usd (pos s.spent) ≡ ok a
      → IsGated request ledger s
      → IsGated request ledger (invoke_task w request model_id family prefix task path s)
  invoke_task-IsGated task path a s at (inr open_it) = inr open_it
  invoke_task-IsGated task path a s at (inl (idle, free, same)) =
      let first : authorize request.model request.cap_usd (pos 0) ≡ ok a = rw free at at in
      elim (Option-cases (w.prompt request.tasks_dir task)) [
        | inl e ↦ inl (unfold invoke_task in ground arith)
        | inr (prompt, e) ↦ elim (Result-cases (invocation_env path request.api_key w.environ)) [
          | inr (x, q) ↦ inl (unfold invoke_task in ground arith)
          | inl (env, q) ↦
              inr ((a, first), (invocation_env-lookup path request.api_key w.environ env "" q).0)
        ]
      ]

  run_task-IsGated :
      (task : String) (s : Run)
      → IsGated request ledger s
      → IsGated request ledger (run_task w request model_id family prefix task s)
  unfolding run_task authorize
  run_task-IsGated task s h =
      elim (Result-cases (authorize request.model request.cap_usd (pos s.spent))) [
        | inr (e, q) ↦ rw (run_task, q) (refusal-IsGated task e s h)
        | inl (a, q) ↦ elim (Option-cases (lookup family invocation_paths)) [
          | inl missing ↦ rw (run_task, q, missing) h
          | inr (path, at) ↦ rw (run_task, q, at) (invoke_task-IsGated task path a s q h)
        ]
      ]

  run_tasks-IsGated :
      (tasks : List String) (s : Run)
      → IsGated request ledger s
      → IsGated request ledger (run_tasks w request model_id family prefix tasks s)
  unfolding run_tasks
  run_tasks-IsGated [] s h = h
  run_tasks-IsGated (task ∷ tasks) s h = elim (Bool-cases (is_some s.raised)) [
    | inl ended ↦ rw ended h
    | inr on ↦ rw on (
        run_tasks-IsGated tasks (run_task w request model_id family prefix task s)
          (run_task-IsGated task s h))
  ]

acknowledged-eq :
    (disclosed : Option String) (expected : String)
    → acknowledged disclosed expected ≡ true
    → disclosed ≡ some expected
acknowledged-eq none expected h = cc
acknowledged-eq (some supplied) expected h = ap some ((eq_iff supplied expected).0 h)

module _ {Text : Type 0} (w : World Text) where
  -- However a run ends, by a report or an exception: where it invoked the command or changed the ledger,
  -- the disclosure handed back was the one for its model, tasks and cap, the cap had granted a run at
  -- nothing spent, and there was a key.
  pub execute-gated :
      (request : RunRequest) (disclosed : Option String) (ledger : List UsageRow)
      → ((execute w request disclosed ledger).invocations ≢ 0)
        ⊎ ((execute w request disclosed ledger).ledger ≢ ledger)
      → (disclosed ≡ some (w.digest request.model request.task_ids request.cap_usd))
        × ((a : Authorization) × (authorize request.model request.cap_usd (pos 0) ≡ ok a))
        × (request.api_key ≢ "")
  unfolding execute
  execute-gated request disclosed ledger h =
      elim (Bool-cases
        (acknowledged disclosed (w.digest request.model request.task_ids request.cap_usd))) [
          | inr no_match ↦ absurd (ground arith)
          | inl shown ↦ elim (Result-cases (resolve_model request.model)) [
            | inr (e, q) ↦ absurd (ground arith)
            | inl (r, q) ↦
                let gate =
                  run_tasks-IsGated w request r.0 r.1.family
                    (or_text request.run_id_prefix w.random_prefix) ledger request.task_ids
                    (start ledger) (inl (refl, refl, refl)) in
                elim gate [
                  | inl closed ↦ absurd (ground arith)
                  | inr (granted, key) ↦ (
                    acknowledged-eq disclosed
                        (w.digest request.model request.task_ids request.cap_usd) shown,
                    granted,
                    key,
                  )
                ]
          ]
        ]
