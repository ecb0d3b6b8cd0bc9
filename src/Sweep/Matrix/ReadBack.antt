-- ===== src/Sweep/Matrix/ReadBack.antt =====
-- run.py, `build_runs`, with run_id.py: the id of a built run names the run.
use model_eval.Prelude.{
  ◌≡◌, refl, sym, ap, ◌∙◌, subst, String, Option, some, List, [], ◌∷◌, map, or_else, if◌then◌else◌,
  All, Bool-cases, inl, inr, ok, bind-ok, ok_inj,
}
use model_eval.RunId.{Text, codes, Cell, build_run_id, parse_run_id}
use model_eval.RunId.RoundTrip.{IsCell, parse-build}
use model_eval.Sweep.{Run}
use model_eval.Sweep.Matrix.Sort.{Key4, key_le, insert_by_key, sorted_by_key}
use model_eval.Sweep.Matrix.{
  SweepConfig, Round, rounds, resolve_effort, cell_of, build_run, build_all, build_sweep, run_of,
  sort_key,
}

-- The cell that a run is of.
abbrev pub cell_in : Run → Cell
cell_in run = record {
  sweep = codes run.sweep;
  model = codes run.model;
  effort = codes (or_else run.effort "");
  harness = codes (if run.harness then "harness" else "bare");
  extra = [];
  task = codes run.task;
  rep = run.rep;
}

-- The effort that a round runs at.
abbrev pub effort_in : List (String × String) → Round → Option String
effort_in winning r = resolve_effort (or_else r.conf.effort (some "high")) r.conf.model winning

module _ {A : Type 0} (P : A → Type 0) where
  All-insert :
      (x : Key4 × A) (ys : List (Key4 × A))
      → P x.1
      → All (λ y. P y.1) ys
      → All (λ y. P y.1) (insert_by_key x ys)
  unfolding insert_by_key
  All-insert x [] p h = (p, tt)
  All-insert x (y ∷ ys) p (q, h) = elim (Bool-cases (key_le x.0 y.0)) [
    | inl e ↦ rw e (p, (q, h))
    | inr e ↦ rw e (q, All-insert x ys p h)
  ]

  All-sorted : (xs : List (Key4 × A)) → All (λ y. P y.1) xs → All (λ y. P y.1) (sorted_by_key xs)
  unfolding sorted_by_key
  All-sorted [] h = h
  All-sorted (x ∷ xs) (p, h) = All-insert x (sorted_by_key xs) p (All-sorted xs h)

  All-runs : (xs : List (Key4 × A)) → All (λ y. P y.1) xs → All P (map (λ x. x.1) xs)
  All-runs [] h = h
  All-runs (x ∷ xs) (p, h) = (p, All-runs xs h)

-- The id of a run is the spelling of a text that reads as the run's cell.
abbrev pub IsReadBack : (Text → String) → Run → Type 0
IsReadBack spell run = (t : Text) × (run.run_id ≡ spell t) × (parse_run_id t ≡ ok (cell_in run))

module _ (spell : Text → String) (winning : List (String × String)) where
  cell_of-in :
      (s : SweepConfig) (r : Round) (effort : Option String) (id : Text)
      → cell_of s r effort ≡ cell_in (run_of spell winning s r effort id)
  cell_of-in s r effort id = elim (Bool-cases r.harness) [ inl e ↦ rw e refl | inr e ↦ rw e refl ]

  build_run-IsReadBack :
      (s : SweepConfig) (shuffled : List String) (r : Round) (x : Key4 × Run)
      → IsCell (cell_of s r (effort_in winning r))
      → build_run spell winning s shuffled r ≡ ok x
      → IsReadBack spell x.1
  build_run-IsReadBack s shuffled r x c h =
      let effort = effort_in winning r in
      let (id, a, k) = bind-ok (build_run_id (cell_of s r effort)) _ x h in
      let (t, b, read) = parse-build (cell_of s r effort) c in
      let same : t ≡ id = ok_inj t id (sym b ∙ a) in
      subst (λ (y : Key4 × Run). IsReadBack spell y.1)
        (ok_inj (sort_key shuffled r, run_of spell winning s r effort id) x k)
        (t, ap spell (sym same), read ∙ ap ok (cell_of-in s r effort id))

  build_all-IsReadBack :
      (s : SweepConfig) (shuffled : List String) (rs : List Round) (xs : List (Key4 × Run))
      → All (λ r. IsCell (cell_of s r (effort_in winning r))) rs
      → build_all spell winning s shuffled rs ≡ ok xs
      → All (λ x. IsReadBack spell x.1) xs
  build_all-IsReadBack s shuffled [] xs c h =
      subst (All (λ (x : Key4 × Run). IsReadBack spell x.1)) (ok_inj [] xs h) tt
  build_all-IsReadBack s shuffled (r ∷ rs) xs (c, cs) h =
      let (x, a, h1) = bind-ok (build_run spell winning s shuffled r) _ xs h in
      let (ys, b, h2) = bind-ok (build_all spell winning s shuffled rs) _ xs h1 in
      subst (All (λ (y : Key4 × Run). IsReadBack spell y.1)) (ok_inj (x ∷ ys) xs h2)
        (build_run-IsReadBack s shuffled r x c a, build_all-IsReadBack s shuffled rs ys cs b)

  -- In a sweep that is built, whose cells have ids that read back (as in `parse-build`), the id of each
  -- run is the spelling of a text that `parse_run_id` reads as that run's own cell: its sweep, model,
  -- resolved effort, harness option, task and repetition, and no extension.
  pub build_sweep-IsReadBack :
      (s : SweepConfig) (shuffled : List String) (runs : List Run)
      → All
          (λ r. IsCell (cell_of s r (effort_in winning r)))
          (rounds s.reps s.tasks s.harness_opts s.configs)
      → build_sweep spell winning s shuffled ≡ ok runs
      → All (IsReadBack spell) runs
  unfolding build_sweep
  build_sweep-IsReadBack s shuffled runs c h =
      let all = rounds s.reps s.tasks s.harness_opts s.configs in
      let (xs, a, k) = bind-ok (build_all spell winning s shuffled all) _ runs h in
      subst (All (IsReadBack spell)) (ok_inj _ runs k) (
        All-runs (IsReadBack spell) (sorted_by_key xs)
          (All-sorted (IsReadBack spell) xs (build_all-IsReadBack s shuffled all xs c a)))
