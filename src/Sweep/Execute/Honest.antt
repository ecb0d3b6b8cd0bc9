-- ===== src/Sweep/Execute/Honest.antt =====
-- run.py, `execute_run`: what a row that it writes may claim.
use model_eval.Prelude.{
  ℕ, ◌≡◌, ◌≢◌, ◌↔◌, subst, refl, ap, ◌∙◌, String, Bool, true, false, Option, none, some, arith,
  string_key, eq_iff, ◌=?◌, or_else, if◌then◌else◌, ok, inl, inr, ◌⊎◌, if-cases, bind-ok, ok_inj,
}
use model_eval.Registry.{Spec, resolve_model, model_family}
use model_eval.RunStatus.{status_class, in_denominator}
use model_eval.RunStatus.Class.{in_denominator-ok}
use model_eval.UsageLedger.Parse.{parse_usage_detailed}
use model_eval.UsageLedger.Entry.{UsageRow}
use model_eval.Sweep.{
  Run, Defaults, ResultRow, as_row, from_registry, resolve_timeout_s, driver_has_dispatch_path,
}
use model_eval.Sweep.Command.{build_cli_cmd}
use model_eval.Sweep.Execute.{
  Outside, Session, broker_cap, run_session, result_row, status_row, status_row_of, dispatch_run,
  execute_run, is_mock, mock_reason, mock_session, completed_reason, detail_or_raise, cli_session,
  gated_pass, graded_reason, usage_row_of,
}

dispatch_run-row :
    (o : Outside) (run : Run) (d : Defaults) (row : ResultRow) (u : Option UsageRow)
    → dispatch_run o run d ≡ ok (row, u)
    → (r : String × Spec) × (cap : Option Bool × Option ℕ) × (s : Session) × (t : ℕ) × (run_session
          o run t
        ≡ ok s)
      × (result_row o run r cap s ≡ row)
dispatch_run-row o run d row u h =
    let (t, _, h1) = bind-ok (resolve_timeout_s run.task d) _ (row, u) h in
    let (cap, _, h2) = bind-ok (broker_cap o d) _ (row, u) h1 in
    let (s, e, h3) = bind-ok (run_session o run t) _ (row, u) h2 in
    let (r, _, h4) = bind-ok (from_registry (resolve_model run.model)) _ (row, u) h3 in
    (
      r,
      cap,
      s,
      t,
      e,
      ap (λ (p : ResultRow × Option UsageRow). p.0)
          (ok_inj
            (result_row o run r cap s, some (usage_row_of (result_row o run r cap s) r.1.family s))
            (row, u) h4),
    )

pub status_row_of-row :
    (ts : String) (run : Run) (reason : String) (row : ResultRow)
    → status_row_of ts run reason ≡ ok row
    → (mid : String) × (status_row ts run mid reason ≡ row)
unfolding status_row_of
status_row_of-row ts run reason row h =
    let (r, _, k) = bind-ok (from_registry (resolve_model run.model)) _ row h in
    (r.0, ok_inj (status_row ts run r.0 reason) row k)

-- A row that `execute_run` returns is the row of a run that it refused, or the row of a session.
abbrev pub Made : Outside → Run → ResultRow → Type 0
Made o run row =
    ((mid : String) × (status_row o.ts run mid "driver_unsupported" ≡ row))
    ⊎ ((r : String × Spec) × (cap : Option Bool × Option ℕ) × (s : Session) × (t : ℕ) × (run_session
            o run t
          ≡ ok s)
        × (result_row o run r cap s ≡ row))

pub execute_run-Made :
    (o : Outside) (run : Run) (d : Defaults) (row : ResultRow) (u : Option UsageRow)
    → execute_run o run d ≡ ok (row, u)
    → Made o run row
unfolding execute_run
execute_run-Made o run d row u h =
    elim (if-cases (driver_has_dispatch_path run.driver) _ _ (ok (row, u)) h) [
      | inl (e, k) ↦ inr (dispatch_run-row o run d row u k)
      | inr (e, k) ↦
          let (x, p, q) = bind-ok (status_row_of o.ts run "driver_unsupported") _ (row, u) k in
          let (mid, m) = status_row_of-row o.ts run "driver_unsupported" x p in
          inl (mid, m ∙ ap (λ (t : ResultRow × Option UsageRow). t.0) (ok_inj (x, none) (row, u) q))
    ]

-- What a row may claim of its run.
pub record IsHonest (run : Run) (row : ResultRow) : Type 0 where
  pub named : row.run_id ≡ run.run_id
  pub classed : row.status ≡ status_class (some row.exit_reason)
  pub passes : (row.passed ≡ some true) ↔ ((row.exit_reason ≡ "ok") × (row.pass_raw ≡ some true))
  pub at_cap : row.pass_at_cap ≡ (if row.exit_reason =? "cap_exhausted" then row.pass_raw else none)

gated_pass_iff :
    (reason : String) (verdict : Option Bool)
    → (some (gated_pass reason verdict) ≡ some true) ↔ ((reason ≡ "ok") × (verdict ≡ some true))
gated_pass_iff reason none = ground (arith, eq_iff reason "ok")
gated_pass_iff reason (some v) = ground (arith, eq_iff reason "ok")

result_row-IsHonest :
    (o : Outside) (run : Run) (r : String × Spec) (cap : Option Bool × Option ℕ) (s : Session)
    → IsHonest run (result_row o run r cap s)
result_row-IsHonest o run (mid, spec) (brokered, k) s = record {
  named = refl;
  classed = refl;
  passes = gated_pass_iff (graded_reason s.reason o.verdict) o.verdict;
  at_cap = refl;
}

status_row-IsHonest :
    (ts : String) (run : Run) (mid : String)
    → IsHonest run (status_row ts run mid "driver_unsupported")
status_row-IsHonest ts run mid = record {
  named = refl;
  classed = refl;
  passes = ground (arith, eq_iff "driver_unsupported" "ok");
  at_cap = refl;
}

-- A row that a call of `execute_run` returns has the id of the run and the class of its exit reason; it
-- says that the run passed exactly when the exit reason is "ok" and the grader said so; and what the
-- grader said of a run that exhausted its cap, and of no other, stands in `pass_at_cap`.
pub execute_run-IsHonest :
    (o : Outside) (run : Run) (d : Defaults) (row : ResultRow) (u : Option UsageRow)
    → execute_run o run d ≡ ok (row, u)
    → IsHonest run row
execute_run-IsHonest o run d row u h = elim (execute_run-Made o run d row u h) [
  | inl (mid, e) ↦ subst (λ (x : ResultRow). IsHonest run x) e (status_row-IsHonest o.ts run mid)
  | inr (r, cap, s, t, k, e) ↦
      subst (λ (x : ResultRow). IsHonest run x) e (result_row-IsHonest o run r cap s)
]

mock_reason-ne : (mock : String) (applies : Bool) → mock_reason mock applies ≢ "ok"
mock_reason-ne mock applies =
    ground (arith, eq_iff "mock_fail" "ok", eq_iff "mock" "ok", eq_iff "mock_patch_failed" "ok")

completed_reason-ok :
    (reason : String) (turns : ℕ) → completed_reason reason turns ≡ "ok" → turns ≢ 0
completed_reason-ok reason turns h z =
    ground (arith, h, z, eq_iff reason "ok", eq_iff "no_completion" "ok")

-- A session with the reason "ok" asked a model, which completed a turn.
session-ok :
    (o : Outside) (run : Run) (t : ℕ) (s : Session)
    → run_session o run t ≡ ok s
    → s.reason ≡ "ok"
    → (is_mock o ≡ false) × (s.turns ≢ 0)
unfolding run_session
session-ok o run t s h e = elim (if-cases (is_mock o) _ _ (ok s) h) [
  | inl (m, k) ↦
      let q = ok_inj (mock_session (mock_reason (or_else o.mock "") o.patch_applies)) s k in
      absurd
        (mock_reason-ne (or_else o.mock "") o.patch_applies (ap (λ (x : Session). x.reason) q ∙ e))
  | inr (m, k) ↦
      let (cmd, _, k1) = bind-ok (build_cli_cmd run.model run.effort o.prompt run.driver) _ s k in
      let (family, _, k2) = bind-ok (from_registry (model_family run.model)) _ s k1 in
      let a = o.answer cmd t in
      let (d, _, k3) =
        bind-ok (detail_or_raise (parse_usage_detailed o.loads o.lines o.is_blank family a.0)) _ s
          k2 in
      let q = ok_inj (cli_session o family (a.1, a.2) d) s k3 in
      let turned = completed_reason-ok a.1 d.turns (ap (λ (x : Session). x.reason) q ∙ e) in
      (m, subst (λ (x : Session). x.turns ≢ 0) q turned)
]

graded_pass-ok :
    (reason : String) (verdict : Option Bool)
    → gated_pass (graded_reason reason verdict) verdict ≡ true
    → (reason ≡ "ok") × (graded_reason reason verdict ≡ "ok")
graded_pass-ok reason none h = ground (arith, h, eq_iff (graded_reason reason none) "ok")
graded_pass-ok reason (some v) h = ground (arith, h, eq_iff reason "ok")

some_inj {ℓ} : {A : Type ℓ} {a b : A} → some a ≡ some b → a ≡ b
some_inj h = ground (arith, h)

abbrev Passes : Outside → ResultRow → Type 0
Passes o row =
    (row.passed ≡ some true)
    → (is_mock o ≡ false)
      × (row.turns ≢ some 0)
      × (row.cap_exhausted ≡ false)
      × (in_denominator (as_row row) ≡ true)

result_row-Passes :
    (o : Outside) (run : Run) (r : String × Spec) (cap : Option Bool × Option ℕ) (s : Session)
    (t : ℕ)
    → run_session o run t ≡ ok s
    → Passes o (result_row o run r cap s)
result_row-Passes o run (mid, spec) (brokered, k) s t h p =
    let (a, b) = graded_pass-ok s.reason o.verdict (some_inj p) in
    let (m, n) = session-ok o run t s h a in
    (
      m,
      λ z. n (some_inj z),
      rw b refl,
      in_denominator-ok (as_row (result_row o run (mid, spec) (brokered, k) s))
          (ap (λ (x : String). some x) b),
    )

-- A row of a call of `execute_run` that says the run passed is the row of a model that was asked and
-- completed a turn, is not marked as a run that exhausted its cap, and counts in the pass rate.
pub execute_run-passed :
    (o : Outside) (run : Run) (d : Defaults) (row : ResultRow) (u : Option UsageRow)
    → execute_run o run d ≡ ok (row, u)
    → row.passed ≡ some true
    → (is_mock o ≡ false)
      × (row.turns ≢ some 0)
      × (row.cap_exhausted ≡ false)
      × (in_denominator (as_row row) ≡ true)
execute_run-passed o run d row u h = elim (execute_run-Made o run d row u h) [
  | inl (mid, e) ↦ subst (λ (x : ResultRow). Passes o x) e (λ p. absurd (ground (arith, p)))
  | inr (r, cap, s, t, k, e) ↦
      subst (λ (x : ResultRow). Passes o x) e (result_row-Passes o run r cap s t k)
]

pub execute_run-run_id :
    (o : Outside) (run : Run) (d : Defaults) (row : ResultRow) (u : Option UsageRow)
    → execute_run o run d ≡ ok (row, u)
    → row.run_id ≡ run.run_id
execute_run-run_id o run d row u h = (execute_run-IsHonest o run d row u h).named
