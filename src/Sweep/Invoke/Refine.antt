-- ===== src/Sweep/Invoke/Refine.antt =====
-- run.py, `main`: a sequence of invocations against a board of runs that are done. The board knows no
-- results file: it is the set of the done ids, and an attempt at a run that is not done may finish it.
use model_eval.Prelude.{
  ℕ, ◌≤◌, ◌≡◌, refl, sym, ap, ◌∙◌, subst, String, Bool, true, false, ◌&&◌, ◌||◌, Option, some, List,
  [], ◌∷◌, ◌++◌, map, arith, string_key, eq_iff, ◌=?◌, contains, count_of, All, Bool-cases, inl,
  inr,
}
use model_eval.Sweep.{Run, Line, Corpus, ids_with, done_reasons, existing_ids, add_id}
use model_eval.Sweep.Ids.{ids_with-append, ids_with-other, contains-append}
use model_eval.Sweep.Execute.{Outside}
use model_eval.Sweep.Gate.{Checks}
use model_eval.Sweep.Invoke.{Options, Ran, State, invoke}
use model_eval.Sweep.Invoke.Board.{
  Board, Attempt, attempt, attempt_all, Allowed, attempt_all-append, Allowed-append,
}
use model_eval.Sweep.Invoke.Trace.{line_of}
use model_eval.Sweep.Invoke.Record.{status_line}
use model_eval.Sweep.Invoke.Recorded.{not_done}
use model_eval.Sweep.Invoke.Resume.{IsInvocation, invoke-IsInvocation}

-- What the results say.
abbrev pub board_of : Corpus → Board
board_of corpus id = contains id (existing_ids corpus.results)

abbrev pub attempt_of : Ran → Attempt
attempt_of r = (r.run.run_id, contains r.row.exit_reason done_reasons)

abbrev runs_of : String → List Ran → ℕ
runs_of id ran = count_of (λ r. r.run.run_id =? id) ran

head-open :
    (board : Board) (r : Ran) (rs : List Ran)
    → (board r.run.run_id ≡ true → runs_of r.run.run_id (r ∷ rs) ≡ 0)
    → board r.run.run_id ≡ false
head-open board r rs h = elim (Bool-cases (board r.run.run_id)) [
  | inl e ↦ absurd (ground (arith, h e, eq_iff r.run.run_id r.run.run_id))
  | inr e ↦ e
]

tail-once : (id : String) (r : Ran) (rs : List Ran) → runs_of id (r ∷ rs) ≤ 1 → runs_of id rs ≤ 1
tail-once id r rs h = ground (arith, h)

tail-fresh :
    (board : Board) (id : String) (r : Ran) (rs : List Ran)
    → runs_of id (r ∷ rs) ≤ 1
    → (board id ≡ true → runs_of id (r ∷ rs) ≡ 0)
    → attempt (attempt_of r) board id ≡ true
    → runs_of id rs ≡ 0
tail-fresh board id r rs once fresh h = elim (Bool-cases (board id)) [
  | inl e ↦ ground (arith, fresh e)
  | inr e ↦ elim (Bool-cases (r.run.run_id =? id)) [
    | inl q ↦ ground (arith, once, q)
    | inr q ↦ absurd (ground (arith, h, e, q))
  ]
]

Allowed-ran :
    (board : Board) (ran : List Ran)
    → ((id : String) → count_of (λ r. r.run.run_id =? id) ran ≤ 1)
    → ((id : String) → board id ≡ true → count_of (λ r. r.run.run_id =? id) ran ≡ 0)
    → Allowed board (map attempt_of ran)
Allowed-ran board [] once fresh = tt
Allowed-ran board (r ∷ rs) once fresh = (
  head-open board r rs (fresh r.run.run_id),
  Allowed-ran (attempt (attempt_of r) board) rs (λ i. tail-once i r rs (once i))
      (λ i h. tail-fresh board i r rs (once i) (fresh i) h),
)

contains-add_id :
    (id other : String) (finished : Bool) (ids : List String)
    → contains id (add_id finished (some other) ids)
      ≡ ((finished && other =? id) || contains id ids)
contains-add_id id other false ids = refl
contains-add_id id other true ids = ground (arith, eq_iff id other, eq_iff other id)

or_assoc : (a b c : Bool) → ((a || b) || c) ≡ (a || (b || c))
or_assoc true b c = refl
or_assoc false b c = refl

-- What the board shows after the executed runs is what it showed before with the ids of their lines.
lines-board :
    (ran : List Ran) (board : Board)
    → All (λ r. r.row.run_id ≡ r.run.run_id) ran
    → (id : String)
    → attempt_all (map attempt_of ran) board id
      ≡ (board id || contains id (ids_with done_reasons (map line_of ran)))
unfolding attempt_all ids_with
lines-board [] board n id = ground arith
lines-board (r ∷ rs) board (n, ns) id =
    let finished = contains r.row.exit_reason done_reasons in
    lines-board rs (attempt (attempt_of r) board) ns id
    ∙ or_assoc (board id) (finished && r.run.run_id =? id)
        (contains id (ids_with done_reasons (map line_of rs)))
    ∙ ap
        (λ (x : String).
          board id
          || ((finished && x =? id) || contains id (ids_with done_reasons (map line_of rs))))
        (sym n)
    ∙ ap (λ (x : Bool). board id || x)
        (sym (contains-add_id id r.row.run_id finished (ids_with done_reasons (map line_of rs))))

-- The results of an invocation show what the board shows after its attempts.
invocation-board :
    (cap : Option ℕ) (runs : List Run) (corpus : Corpus) (t : State)
    → IsInvocation cap runs corpus t
    → (id : String) → board_of t.corpus id ≡ attempt_all (map attempt_of t.ran) (board_of corpus) id
invocation-board cap runs corpus t h id =
    let statuses = map status_line t.recorded in
    let lines = map line_of t.ran in
    ap (λ (x : List Line). contains id (existing_ids x)) h.results
    ∙ ap (λ (x : List String). contains id x)
        (ids_with-append done_reasons corpus.results (statuses ++ lines)
          ∙ ap (λ (x : List String). existing_ids corpus.results ++ x)
              (ids_with-append done_reasons statuses lines
                ∙ ap (λ (x : List String). x ++ ids_with done_reasons lines)
                    (ids_with-other done_reasons t.recorded (not_done t.recorded h.statuses))))
    ∙ contains-append id (existing_ids corpus.results) (ids_with done_reasons lines)
    ∙ sym (lines-board t.ran (board_of corpus) h.named id)

-- One call of the driver: its arguments, and what its runs meet.
pub record Call : Type 0 where
  pub opts : Options
  pub checks : Checks
  pub meets : Run → Outside

abbrev pub called : List Run → Call → Corpus → State
called runs call corpus = (invoke call.opts call.checks call.meets runs corpus).state

-- The results after some calls of the driver on one matrix, and the attempts of them all.
unfoldable pub call_all : List Run → List Call → Corpus → List Attempt × Corpus
call_all runs [] corpus = ([], corpus)
call_all runs (call ∷ calls) corpus =
    let t = called runs call corpus in
    let (attempts, end) = call_all runs calls t.corpus in (map attempt_of t.ran ++ attempts, end)

-- Any sequence of invocations of the driver on a matrix whose ids differ is a sequence of attempts of the
-- board: no run is attempted that the board shows as done, across the invocations too, and the ids that
-- count as done in the results at the end are the ids that the board then shows as done.
pub call_all-refines :
    (runs : List Run) (calls : List Call) (corpus : Corpus)
    → ((id : String) → count_of (λ run. run.run_id =? id) runs ≤ 1)
    → (let (attempts, end) = call_all runs calls corpus in
        Allowed (board_of corpus) attempts
        × (board_of end ≡ attempt_all attempts (board_of corpus)))
unfolding call_all attempt_all
call_all-refines runs [] corpus once = (tt, refl)
call_all-refines runs (call ∷ calls) corpus once =
    let t = called runs call corpus in
    let xs = map attempt_of t.ran in
    let ys = (call_all runs calls t.corpus).0 in
    let h = invoke-IsInvocation call.opts call.checks call.meets runs corpus in
    let e : board_of t.corpus ≡ attempt_all xs (board_of corpus) =
      λ i id. invocation-board call.opts.max_usd runs corpus t h id i in
    let (p, q) = call_all-refines runs calls t.corpus once in
    (
      Allowed-append (board_of corpus) xs ys
          (Allowed-ran (board_of corpus) t.ran
            (λ id. omega (arith, h.within (λ run. run.run_id =? id), once id)) h.fresh)
          (subst (λ (b : Board). Allowed b ys) e p),
      q ∙ ap (attempt_all ys) e ∙ sym (attempt_all-append xs ys (board_of corpus)),
    )
