-- ===== src/Executor/Loop.antt =====
-- executor.py, `execute`: what a report says of the ledger, and what the gate in front of the loop stops.
use model_eval.Prelude.{
  ℕ, ◌+◌, ◌≡◌, refl, sym, ap, subst, ◌∙◌, true, Option, none, String, List, [], ◌∷◌, ◌++◌, map,
  append_assoc, append-nil, arith, string_key, is_some, ok, length, length-append, Result-cases,
  Option-cases, Bool-cases, inl, inr,
}
use mathlib.Core.List.{map-append}
use model_eval.Registry.{Spec, resolve_model}
use model_eval.UsageLedger.Entry.{UsageRow}
use model_eval.Executor.{
  World, RunRequest, RunReport, TaskOutcome, Run, run_task, run_tasks, execute, start, or_text,
  acknowledged,
}
use model_eval.Executor.Account.{IsTrace, AreSettled, ran_ids, row_ids, cost_of_rows, sum_usd}
use model_eval.Executor.Step.{run_task-IsTrace}

cost_of_rows-append :
    (xs ys : List UsageRow) → cost_of_rows (xs ++ ys) ≡ cost_of_rows xs + cost_of_rows ys
cost_of_rows-append [] ys = omega arith
cost_of_rows-append (u ∷ xs) ys = ground (arith, cost_of_rows-append xs ys)

sum_usd-append : (xs ys : List TaskOutcome) → sum_usd (xs ++ ys) ≡ sum_usd xs + sum_usd ys
sum_usd-append [] ys = omega arith
sum_usd-append (o ∷ xs) ys = ground (arith, sum_usd-append xs ys)

ran_ids-append : (xs ys : List TaskOutcome) → ran_ids (xs ++ ys) ≡ ran_ids xs ++ ran_ids ys
ran_ids-append [] ys = refl
ran_ids-append (o ∷ xs) ys = ground (arith, ran_ids-append xs ys)

AreSettled-append :
    (request : RunRequest) (family : String) (spent mid : ℕ) (xs ys : List TaskOutcome)
    → AreSettled request family spent xs
    → mid ≡ spent + sum_usd xs
    → AreSettled request family mid ys
    → AreSettled request family spent (xs ++ ys)
AreSettled-append request family spent mid [] ys h e k =
    subst (λ (n : ℕ). AreSettled request family n ys) (omega arith) k
AreSettled-append request family spent mid (o ∷ xs) ys h e k =
    (h.0, AreSettled-append request family (spent + o.usd) mid xs ys h.1 (omega arith) k)

join :
    (request : RunRequest) (family : String) (xs ys : List String) (s t u : Run)
    → IsTrace request family xs s t
    → IsTrace request family ys t u
    → IsTrace request family (xs ++ ys) s u
join request family xs ys s t u h k = record {
  os = h.os ++ k.os;
  rows = h.rows ++ k.rows;
  outcomes = k.outcomes ∙ ap (λ l. l ++ k.os) h.outcomes ∙ append_assoc s.outcomes h.os k.os;
  ledger = k.ledger ∙ ap (λ l. l ++ k.rows) h.ledger ∙ append_assoc s.ledger h.rows k.rows;
  in_order = map-append (λ (o : TaskOutcome). o.task_id) h.os k.os ∙ cc (h.in_order, k.in_order);
  spent_usd = omega (arith, h.spent_usd, k.spent_usd, sum_usd-append h.os k.os);
  spent = omega (arith, h.spent, k.spent, cost_of_rows-append h.rows k.rows);
  ledgered = omega (arith, h.ledgered, k.ledgered, length-append h.rows k.rows);
  same_ids =
      map-append (λ (r : UsageRow). r.run_id) h.rows k.rows
      ∙ cc (h.same_ids, k.same_ids)
      ∙ sym (ran_ids-append h.os k.os);
  settled =
      AreSettled-append request family s.spent t.spent h.os k.os h.settled h.spent_usd k.settled;
}

stay : (request : RunRequest) (family : String) (s : Run) → IsTrace request family [] s s
stay request family s = record {
  os = [];
  rows = [];
  outcomes = sym (append-nil s.outcomes);
  ledger = sym (append-nil s.ledger);
  in_order = refl;
  spent_usd = omega arith;
  spent = omega arith;
  ledgered = omega arith;
  same_ids = refl;
  settled = tt;
}

module _ {Text : Type 0} (w : World Text) (request : RunRequest)
    (model_id family prefix : String) where
  run_tasks-raised :
      (tasks : List String) (s : Run)
      → is_some s.raised ≡ true
      → run_tasks w request model_id family prefix tasks s ≡ s
  unfolding run_tasks
  run_tasks-raised [] s h = refl
  run_tasks-raised (task ∷ tasks) s h = ground arith

  run_tasks-IsTrace :
      (tasks : List String) (s : Run)
      → s.raised ≡ none
      → (run_tasks w request model_id family prefix tasks s).raised ≡ none
      → IsTrace request family tasks s (run_tasks w request model_id family prefix tasks s)
  run_tasks-IsTrace [] s idle quiet = unfold run_tasks in stay request family s
  run_tasks-IsTrace (task ∷ tasks) s idle quiet =
      let t = run_task w request model_id family prefix task s in
      let u = run_tasks w request model_id family prefix tasks t in
      let goes : run_tasks w request model_id family prefix (task ∷ tasks) s ≡ u =
        unfold run_tasks in ground arith in
      let quiet_u : u.raised ≡ none = sym (ap (λ (r : Run). r.raised) goes) ∙ quiet in
      elim (Option-cases t.raised) [
        | inl on ↦ subst (IsTrace request family (task ∷ tasks) s) (sym goes) (
            join request family (task ∷ []) tasks s t u
              (run_task-IsTrace w request model_id family prefix task s idle on)
              (run_tasks-IsTrace tasks t on quiet_u))
        | inr (e, stop) ↦
            let same : u ≡ t = run_tasks-raised tasks t (ap is_some stop) in
            absurd (ground (arith, ap (λ (r : Run). r.raised) same))
      ]

module _ {Text : Type 0} (w : World Text) where
  -- A report comes from the loop, on a resolved model.
  pub execute-IsTrace :
      (request : RunRequest) (disclosed : Option String) (ledger : List UsageRow)
      (report : RunReport)
      → (execute w request disclosed ledger).report ≡ ok report
      → (r : String × Spec) × (resolve_model request.model ≡ ok r)
        × (u : Run) × IsTrace request r.1.family request.task_ids (start ledger) u
        × ((execute w request disclosed ledger).ledger ≡ u.ledger)
        × (report.outcomes ≡ u.outcomes)
        × (report.spent_usd ≡ u.spent)
        × (report.ledger_rows_written ≡ u.ledgered)
  unfolding execute
  execute-IsTrace request disclosed ledger report h =
      elim (Bool-cases
        (acknowledged disclosed (w.digest request.model request.task_ids request.cap_usd))) [
          | inr no_match ↦ absurd (ground arith)
          | inl shown ↦ elim (Result-cases (resolve_model request.model)) [
            | inr (e, q) ↦ absurd (ground arith)
            | inl (r, q) ↦
                let u =
                  run_tasks w request r.0 r.1.family (or_text request.run_id_prefix w.random_prefix)
                    request.task_ids (start ledger) in
                elim (Option-cases u.raised) [
                  | inr (e, k) ↦ absurd (ground arith)
                  | inl quiet ↦ (
                    r,
                    q,
                    u,
                    run_tasks-IsTrace w request r.0 r.1.family
                        (or_text request.run_id_prefix w.random_prefix) request.task_ids
                        (start ledger) refl quiet,
                    ground arith,
                    ground arith,
                    ground arith,
                    ground arith,
                  )
                ]
          ]
        ]

  -- A report names every task once, in order. The rows that the run appended are those of its runs, by
  -- their ids and in order; their number is the number reported, and both their list prices together
  -- and the sum over the outcomes are the spend reported.
  pub execute-accounts :
      (request : RunRequest) (disclosed : Option String) (ledger : List UsageRow)
      (report : RunReport)
      → (execute w request disclosed ledger).report ≡ ok report
      → (map (λ (o : TaskOutcome). o.task_id) report.outcomes ≡ request.task_ids)
        × (report.spent_usd ≡ sum_usd report.outcomes)
        × ((rows : List UsageRow) × ((execute w request disclosed ledger).ledger ≡ ledger ++ rows)
            × (row_ids rows ≡ ran_ids report.outcomes)
            × (report.ledger_rows_written ≡ length rows)
            × (report.spent_usd ≡ cost_of_rows rows))
  execute-accounts request disclosed ledger report h =
      let (r, q, u, t, el, eo, es, ew) = execute-IsTrace request disclosed ledger report h in
      let outcomes : report.outcomes ≡ t.os = eo ∙ t.outcomes in
      (
        ap (map (λ (o : TaskOutcome). o.task_id)) outcomes ∙ t.in_order,
        es ∙ t.spent_usd ∙ omega (arith, ap sum_usd outcomes),
        (
          t.rows,
          el ∙ t.ledger,
          t.same_ids ∙ ap ran_ids (sym outcomes),
          ew ∙ t.ledgered ∙ omega arith,
          es ∙ t.spent ∙ omega arith,
        ),
      )
