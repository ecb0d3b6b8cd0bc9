-- ===== src/Sweep/Invoke/Record.antt =====
-- run.py, `main`: what the two loops over the cells that cannot run add to the results.
use model_eval.Prelude.{
  ◌≡◌, refl, sym, ap, ◌∙◌, subst, String, false, ◌||◌, List, [], ◌∷◌, ◌++◌, map, arith, string_key,
  contains, All, All-append, is_some, Result, ok, err, append_assoc, append-nil, Bool-cases, inl,
  inr,
}
use mathlib.Core.List.{map-append}
use model_eval.Sweep.{Run, SweepError, ResultRow, Line, written, as_row}
use model_eval.Sweep.Execute.{Outside, status_row_of}
use model_eval.Sweep.Execute.Honest.{status_row_of-row}
use model_eval.Sweep.Invoke.{State, record_cell, record_cells, record_result}

abbrev pub status_line : ResultRow → Line
status_line row = written (as_row row)

-- A status row of a run that was not recorded before.
abbrev pub IsFreshStatus : String → List String → ResultRow → Type 0
IsFreshStatus reason already row =
    (row.exit_reason ≡ reason) × (contains row.run_id already ≡ false)

-- What the loop over some cells does between two states.
pub record IsRecording (reason : String) (already : List String) (s t : State) : Type 0 where
  pub new : List ResultRow
  pub recorded : t.recorded ≡ s.recorded ++ new
  pub results : t.corpus.results ≡ s.corpus.results ++ map status_line new
  pub ran : t.ran ≡ s.ran
  pub spent : t.spent ≡ s.spent
  pub fresh : All (IsFreshStatus reason already) new

stays :
    (reason : String) (already : List String) (s t : State) → t ≡ s → IsRecording reason already s t
stays reason already s t e = record {
  new = [];
  recorded = ap (λ (x : State). x.recorded) e ∙ sym (append-nil s.recorded);
  results = ap (λ (x : State). x.corpus.results) e ∙ sym (append-nil s.corpus.results);
  ran = ap (λ (x : State). x.ran) e;
  spent = ap (λ (x : State). x.spent) e;
  fresh = tt;
}

joins :
    (reason : String) (already : List String) (s t u : State)
    → IsRecording reason already s t
    → IsRecording reason already t u
    → IsRecording reason already s u
joins reason already s t u h k = record {
  new = h.new ++ k.new;
  recorded =
      k.recorded
      ∙ ap (λ (x : List ResultRow). x ++ k.new) h.recorded
      ∙ append_assoc s.recorded h.new k.new;
  results =
      k.results
      ∙ ap (λ (x : List Line). x ++ map status_line k.new) h.results
      ∙ append_assoc s.corpus.results (map status_line h.new) (map status_line k.new)
      ∙ ap (λ (x : List Line). s.corpus.results ++ x) (sym (map-append status_line h.new k.new));
  ran = k.ran ∙ h.ran;
  spent = k.spent ∙ h.spent;
  fresh = All-append (IsFreshStatus reason already) h.new k.new h.fresh k.fresh;
}

result-IsRecording :
    (reason : String) (already : List String) (ts : String) (run : Run) (s : State)
    (r : Result SweepError ResultRow)
    → status_row_of ts run reason ≡ r
    → contains run.run_id already ≡ false
    → IsRecording reason already s (record_result r s)
result-IsRecording reason already ts run s (err e) h k = record {
  new = [];
  recorded = sym (append-nil s.recorded);
  results = sym (append-nil s.corpus.results);
  ran = refl;
  spent = refl;
  fresh = tt;
}
result-IsRecording reason already ts run s (ok row) h k =
    let (mid, e) = status_row_of-row ts run reason row h in
    record {
      new = row ∷ [];
      recorded = refl;
      results = refl;
      ran = refl;
      spent = refl;
      fresh = (subst (λ (x : ResultRow). IsFreshStatus reason already x) e (refl, k), tt);
    }

record_cell-IsRecording :
    (w : Run → Outside) (reason : String) (already : List String) (run : Run) (s : State)
    → IsRecording reason already s (record_cell w reason already run s)
record_cell-IsRecording w reason already run s =
    elim (Bool-cases (is_some s.stopped || contains run.run_id already)) [
      | inl b ↦ rw b (stays reason already s s refl)
      | inr b ↦ rw b (
          result-IsRecording reason already (w run).ts run s (status_row_of (w run).ts run reason)
            refl (ground (arith, b)))
    ]

pub record_cells-IsRecording :
    (w : Run → Outside) (reason : String) (already : List String) (runs : List Run) (s : State)
    → IsRecording reason already s (record_cells w reason already runs s)
unfolding record_cells
record_cells-IsRecording w reason already [] s = stays reason already s s refl
record_cells-IsRecording w reason already (run ∷ rest) s =
    joins reason already s (record_cell w reason already run s)
      (record_cells w reason already rest (record_cell w reason already run s))
      (record_cell-IsRecording w reason already run s)
      (record_cells-IsRecording w reason already rest (record_cell w reason already run s))
