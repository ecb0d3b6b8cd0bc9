-- ===== src/Sweep/Invoke/Settled.antt =====
-- run.py, `main`: an invocation does not record again what an earlier one recorded.
use model_eval.Prelude.{
  ◌≡◌, refl, sym, ap, ◌∙◌, subst, String, Bool, true, ◌||◌, none, List, [], ◌∷◌, ◌++◌, map, arith,
  string_key, eq_iff, contains, All, is_some, if◌then◌else◌, Result, ok, err, Bool-cases, inl, inr,
}
use model_eval.Sweep.{Run, SweepError, ResultRow, Line, ids_with}
use model_eval.Sweep.Ids.{ids_with-append, contains-append}
use model_eval.Sweep.Execute.{Outside, status_row, status_row_of}
use model_eval.Sweep.Execute.Honest.{status_row_of-row}
use model_eval.Sweep.Invoke.{State, record_cell, record_cells, record_result}
use model_eval.Sweep.Invoke.Record.{status_line, record_cells-IsRecording}

-- The results have a row with a reason for a run.
abbrev pub Holds : String → List Line → Run → Type 0
Holds reason lines run = contains run.run_id (ids_with (reason ∷ []) lines) ≡ true

Holds-more :
    (reason : String) (xs ys : List Line) (run : Run)
    → Holds reason xs run
    → Holds reason (xs ++ ys) run
Holds-more reason xs ys run h =
    ap (λ (ids : List String). contains run.run_id ids) (ids_with-append (reason ∷ []) xs ys)
    ∙ contains-append run.run_id (ids_with (reason ∷ []) xs) (ids_with (reason ∷ []) ys)
    ∙ ap (λ (b : Bool). b || contains run.run_id (ids_with (reason ∷ []) ys)) h

pub All-Holds-more :
    (reason : String) (xs ys : List Line) (runs : List Run)
    → All (Holds reason xs) runs
    → All (Holds reason (xs ++ ys)) runs
All-Holds-more reason xs ys [] h = tt
All-Holds-more reason xs ys (run ∷ runs) (h, k) =
    (Holds-more reason xs ys run h, All-Holds-more reason xs ys runs k)

Holds-new :
    (reason ts mid : String) (xs : List Line) (run : Run)
    → Holds reason (xs ++ status_line (status_row ts run mid reason) ∷ []) run
unfolding ids_with
Holds-new reason ts mid xs run =
    let new = status_line (status_row ts run mid reason) ∷ [] in
    ap (λ (ids : List String). contains run.run_id ids) (ids_with-append (reason ∷ []) xs new)
    ∙ contains-append run.run_id (ids_with (reason ∷ []) xs) (ids_with (reason ∷ []) new)
    ∙ ground (arith, eq_iff reason reason, eq_iff run.run_id run.run_id)

-- A recorded cell is in the results, or was there before.
result-Holds :
    (reason ts : String) (run : Run) (s : State) (r : Result SweepError ResultRow)
    → status_row_of ts run reason ≡ r
    → (record_result r s).stopped ≡ none
    → (s.stopped ≡ none) × Holds reason (record_result r s).corpus.results run
result-Holds reason ts run s (err e) h k = absurd (ground (arith, k))
result-Holds reason ts run s (ok row) h k =
    let (mid, e) = status_row_of-row ts run reason row h in
    (
      k,
      subst (λ (x : ResultRow). Holds reason (s.corpus.results ++ status_line x ∷ []) run) e
          (Holds-new reason ts mid s.corpus.results run),
    )

record_cell-Holds :
    (w : Run → Outside) (reason : String) (already : List String) (run : Run) (s : State)
    → ((r : Run) → contains r.run_id already ≡ true → Holds reason s.corpus.results r)
    → (record_cell w reason already run s).stopped ≡ none
    → (s.stopped ≡ none) × Holds reason (record_cell w reason already run s).corpus.results run
record_cell-Holds w reason already run s known =
    let t = record_result (status_row_of (w run).ts run reason) s in
    elim (Bool-cases (is_some s.stopped || contains run.run_id already)) [
      | inl b ↦
          subst
            (λ (x : Bool).
              (if x then s else t).stopped ≡ none
              → (s.stopped ≡ none) × Holds reason (if x then s else t).corpus.results run)
            (sym b) (λ h. (h, known run (ground (arith, b, h))))
      | inr b ↦
          subst
            (λ (x : Bool).
              (if x then s else t).stopped ≡ none
              → (s.stopped ≡ none) × Holds reason (if x then s else t).corpus.results run)
            (sym b)
            (result-Holds reason (w run).ts run s (status_row_of (w run).ts run reason) refl)
    ]

pub cells-more :
    (w : Run → Outside) (reason : String) (already : List String) (runs : List Run) (s : State)
    (other : String) (others : List Run)
    → All (Holds other s.corpus.results) others
    → All (Holds other (record_cells w reason already runs s).corpus.results) others
cells-more w reason already runs s other others h =
    let r = record_cells-IsRecording w reason already runs s in
    subst (λ (x : List Line). All (Holds other x) others) (sym r.results)
      (All-Holds-more other s.corpus.results (map status_line r.new) others h)

pub record_cells-hold :
    (w : Run → Outside) (reason : String) (already : List String) (runs : List Run) (s : State)
    → ((r : Run) → contains r.run_id already ≡ true → Holds reason s.corpus.results r)
    → (record_cells w reason already runs s).stopped ≡ none
    → (s.stopped ≡ none)
      × All (Holds reason (record_cells w reason already runs s).corpus.results) runs
unfolding record_cells
record_cells-hold w reason already [] s known h = (h, tt)
record_cells-hold w reason already (run ∷ rest) s known h =
    let t = record_cell w reason already run s in
    let one = record_cells-IsRecording w reason already (run ∷ []) s in
    let still : (r : Run) → contains r.run_id already ≡ true → Holds reason t.corpus.results r =
      λ r k.
        subst (λ (x : List Line). Holds reason x r) (sym one.results)
          (Holds-more reason s.corpus.results (map status_line one.new) r (known r k)) in
    let (later, all) = record_cells-hold w reason already rest t still h in
    let (now, this) = record_cell-Holds w reason already run s known later in
    let (head, _) = cells-more w reason already rest t reason (run ∷ []) (this, tt) in
    (now, (head, all))

or_true : (b : Bool) → (b || true) ≡ true
or_true b = ground arith

-- Nothing is recorded where every cell is in the results.
pub record_cells-idle :
    (w : Run → Outside) (reason : String) (runs : List Run) (s : State) (already : List String)
    → All (λ run. contains run.run_id already ≡ true) runs
    → record_cells w reason already runs s ≡ s
unfolding record_cells
record_cells-idle w reason [] s already h = refl
record_cells-idle w reason (run ∷ rest) s already (h, k) =
    let t = record_result (status_row_of (w run).ts run reason) s in
    let same : record_cell w reason already run s ≡ s =
      ap (λ (x : Bool). if (is_some s.stopped || x) then s else t) h
      ∙ ap (λ (x : Bool). if x then s else t) (or_true (is_some s.stopped)) in
    ap (record_cells w reason already rest) same ∙ record_cells-idle w reason rest s already k
