-- ===== src/Executor/Step.antt =====
-- executor.py, one iteration of the loop of `execute`: an iteration that raises nothing reports one task.
use model_eval.Prelude.{
  ℕ, suc, ◌≡◌, ◌≢◌, refl, sym, ap, subst, ◌∙◌, none, String, [], ◌∷◌, append-nil, arith, string_key,
  lookup, ok, err, Result-cases, Option-cases, inl, inr,
}
use model_eval.Prelude.Int.{pos}
use model_eval.UsageLedger.Parse.{UsageDetail, parse_usage_detailed}
use model_eval.UsageLedger.Entry.{build_usage_row, counts_of}
use model_eval.SpendCap.{SpendError, Authorization, authorize, cost_of}
use model_eval.Executor.{
  World, InvocationPath, invocation_paths, invocation_env, build_command, RunRequest, TaskStatus,
  Run, ledger_run, account, invoke_task, run_task, on_refusal, ran_row, ran_outcome, report_task,
  TaskReason, refused, unsupported, not_run,
}
use model_eval.Executor.Account.{Settles, IsTrace, cost_of-eq-ok}

module _ {Text : Type 0} (w : World Text) (request : RunRequest)
    (model_id family prefix : String) where
  ledger_run-IsTrace :
      (task : String) (n : ℕ) (d : UsageDetail) (usd : ℕ) (a : Authorization) (s : Run)
      → cost_of model_id d ≡ ok usd
      → authorize request.model request.cap_usd (pos s.spent) ≡ ok a
      → IsTrace request family
          (task ∷ [])
          s
          (ledger_run w request model_id family prefix task n d usd s)
  ledger_run-IsTrace task n d usd a s h at =
      let (named, price) = cost_of-eq-ok model_id d usd h in
      record {
        os = ran_outcome w request model_id family prefix task n d usd ∷ [];
        rows = ran_row w request model_id family prefix task n d ∷ [];
        outcomes = refl;
        ledger = refl;
        in_order = refl;
        spent_usd = omega arith;
        spent = unfold build_usage_row counts_of in ground arith;
        ledgered = omega arith;
        same_ids = unfold build_usage_row in refl;
        settled = ((a, at), tt);
      }

  not_run-IsTrace :
      (task : String) (status : TaskStatus) (reason : TaskReason) (s : Run)
      → Settles request family s.spent (not_run task model_id status reason)
      → (status ≢ TaskStatus.ran)
      → IsTrace request family (task ∷ []) s (report_task (not_run task model_id status reason) s)
  not_run-IsTrace task status reason s h idle = record {
    os = not_run task model_id status reason ∷ [];
    rows = [];
    outcomes = refl;
    ledger = sym (append-nil s.ledger);
    in_order = refl;
    spent_usd = omega arith;
    spent = omega arith;
    ledgered = ground arith;
    same_ids = refl;
    settled = (h, tt);
  }

  -- An iteration that nothing ended and that reached the invocation.
  abbrev HasRun : String → Run → Run → Type 0
  HasRun task s t =
      (n : ℕ) × (d : UsageDetail) × (usd : ℕ) × (cost_of model_id d ≡ ok usd)
      × (t ≡ ledger_run w request model_id family prefix task n d usd s)

  account-HasRun :
      (task : String) (n : ℕ) (out : Text) (s : Run)
      → (account w request model_id family prefix task n out s).raised ≡ none
      → HasRun task s (account w request model_id family prefix task n out s)
  unfolding account
  account-HasRun task n out s quiet =
      elim (Result-cases (parse_usage_detailed w.loads w.lines w.is_blank family out)) [
        | inr (e, q) ↦ absurd (ground arith)
        | inl (parsed, q) ↦ elim (Option-cases parsed) [
          | inl p ↦ absurd (ground arith)
          | inr (d, p) ↦ elim (Result-cases (cost_of model_id d)) [
            | inr (e, c) ↦ absurd (ground arith)
            | inl (usd, c) ↦ (n, d, usd, c, ground arith)
          ]
        ]
      ]

  -- `s` with one more invocation.
  abbrev called : Run → Run
  called s = record s { invocations = suc s.invocations }

  invoke_task-HasRun :
      (task : String) (path : InvocationPath) (s : Run)
      → s.raised ≡ none
      → (invoke_task w request model_id family prefix task path s).raised ≡ none
      → HasRun task (called s) (invoke_task w request model_id family prefix task path s)
  unfolding invoke_task
  invoke_task-HasRun task path s idle quiet =
      elim (Option-cases (w.prompt request.tasks_dir task)) [
        | inl e ↦ absurd (ground arith)
        | inr (prompt, e) ↦ elim (Result-cases (invocation_env path request.api_key w.environ)) [
          | inr (x, q) ↦ absurd (ground arith)
          | inl (env, q) ↦
              elim (Option-cases
                (w.invoke s.invocations (build_command path model_id request.effort prompt) env)) [
                  | inl i ↦ absurd (ground arith)
                  | inr (out, i) ↦
                      let t =
                        account w request model_id family prefix task s.invocations out
                          (called s) in
                      let same : invoke_task w request model_id family prefix task path s ≡ t =
                        ground arith in
                      subst (HasRun task (called s)) (sym same) (
                        account-HasRun task s.invocations out (called s)
                          (sym (ap (λ (r : Run). r.raised) same) ∙ quiet))
                ]
        ]
      ]

  refusal-IsTrace :
      (task : String) (e : SpendError) (s : Run)
      → s.raised ≡ none
      → authorize request.model request.cap_usd (pos s.spent) ≡ err e
      → (on_refusal task model_id e s).raised ≡ none
      → IsTrace request family (task ∷ []) s (on_refusal task model_id e s)
  refusal-IsTrace task (SpendError.unresolved x) s idle at quiet = absurd (ground arith)
  refusal-IsTrace task (SpendError.unmeterable m f r) s idle at quiet =
      not_run-IsTrace task refused (TaskReason.spend_refused (SpendError.unmeterable m f r)) s
        (refl, (SpendError.unmeterable m f r, at)) (ground arith)
  refusal-IsTrace task (SpendError.no_cap_declared m f) s idle at quiet =
      not_run-IsTrace task refused (TaskReason.spend_refused (SpendError.no_cap_declared m f)) s
        (refl, (SpendError.no_cap_declared m f, at)) (ground arith)
  refusal-IsTrace task (SpendError.under_floor m f r n) s idle at quiet =
      not_run-IsTrace task refused (TaskReason.spend_refused (SpendError.under_floor m f r n)) s
        (refl, (SpendError.under_floor m f r n, at)) (ground arith)

  invoked-IsTrace :
      (task : String) (a : Authorization) (s t : Run)
      → authorize request.model request.cap_usd (pos s.spent) ≡ ok a
      → HasRun task (called s) t
      → IsTrace request family (task ∷ []) s t
  invoked-IsTrace task a s t at (n, d, usd, c, e) =
      let h = ledger_run-IsTrace task n d usd a (called s) c at in
      subst (IsTrace request family (task ∷ []) s) (sym e) (record {
        os = h.os;
        rows = h.rows;
        outcomes = h.outcomes;
        ledger = h.ledger;
        in_order = h.in_order;
        spent_usd = h.spent_usd;
        spent = h.spent;
        ledgered = h.ledgered;
        same_ids = h.same_ids;
        settled = h.settled;
      })

  pub run_task-IsTrace :
      (task : String) (s : Run)
      → s.raised ≡ none
      → (run_task w request model_id family prefix task s).raised ≡ none
      → IsTrace request family (task ∷ []) s (run_task w request model_id family prefix task s)
  run_task-IsTrace task s idle quiet =
      elim (Result-cases (authorize request.model request.cap_usd (pos s.spent))) [
        | inr (e, q) ↦
            by_case (on_refusal task model_id e s) (unfold run_task in ground arith)
              (refusal-IsTrace task e s idle q)
        | inl (a, q) ↦ elim (Option-cases (lookup family invocation_paths)) [
          | inl missing ↦
              by_case
                (report_task (not_run task model_id unsupported (TaskReason.no_path family)) s)
                (unfold run_task in ground arith)
                (λ _.
                  not_run-IsTrace task unsupported (TaskReason.no_path family) s ((a, q), missing)
                    (ground arith))
          | inr (path, at) ↦
              by_case (invoke_task w request model_id family prefix task path s)
                (unfold run_task in ground arith)
                (λ k.
                  invoked-IsTrace task a s
                    (invoke_task w request model_id family prefix task path s) q
                    (invoke_task-HasRun task path s idle k))
        ]
      ]
    where
      by_case :
          (t : Run)
          → run_task w request model_id family prefix task s ≡ t
          → (t.raised ≡ none → IsTrace request family (task ∷ []) s t)
          → IsTrace request family (task ∷ []) s (run_task w request model_id family prefix task s)
      by_case t e k =
          subst (IsTrace request family (task ∷ []) s) (sym e)
            (k (sym (ap (λ (r : Run). r.raised) e) ∙ quiet))
