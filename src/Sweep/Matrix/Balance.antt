-- ===== src/Sweep/Matrix/Balance.antt =====
-- run.py, `build_runs`: the matrix of a sweep is the product of its lists.
use native.Mathlib.Nat.{suc-mul, zero-mul}
use model_eval.Prelude.{
  Option, ◌&&◌, true, ℕ, suc, ◌+◌, ◌*◌, ◌≡◌, refl, sym, ap, ◌∙◌, String, Bool, List, [], ◌∷◌, ◌++◌,
  map, arith, string_key, count_of, or_else, some, if◌then◌else◌, ok, bind-ok, ok_inj,
}
use model_eval.RunId.{Text, build_run_id}
use model_eval.Sweep.{Run}
use model_eval.Sweep.Matrix.Sort.{Key4, sorted_by_key, count_of-sorted}
use model_eval.Sweep.Matrix.{
  Config, SweepConfig, Round, over_configs, over_harness, over_tasks, rounds, resolve_effort,
  cell_of, build_run, build_all, build_sweep, run_of, sort_key,
}

-- A test of a run by its repetition, its task, its harness option and the rest, each by itself.
abbrev pub all_four : Bool → Bool → Bool → Bool → Bool
all_four rep task harness rest = rep && (task && (harness && rest))

count_of-append :
    {A : Type 0} (p : A → Bool) (xs ys : List A)
    → count_of p (xs ++ ys) ≡ count_of p xs + count_of p ys
count_of-append p [] ys = omega arith
count_of-append p (x ∷ xs) ys = ground (arith, count_of-append p xs ys)

module _ (pr : ℕ → Bool) (pt : String → Bool) (ph : Bool → Bool) (pc : Config → Bool) where
  abbrev is_chosen : Round → Bool
  is_chosen r = all_four (pr r.rep) (pt r.task) (ph r.harness) (pc r.conf)

  over_configs-count :
      (rep : ℕ) (task : String) (h : Bool) (ci : ℕ) (confs : List Config)
      → count_of is_chosen (over_configs rep task h ci confs)
        ≡ (if all_four (pr rep) (pt task) (ph h) true then count_of pc confs else 0)
  over_configs-count rep task h ci [] = ground arith
  over_configs-count rep task h ci (c ∷ cs) =
      ground (arith, over_configs-count rep task h (suc ci) cs)

  over_harness-count :
      (rep : ℕ) (task : String) (hs : List Bool) (confs : List Config)
      → count_of is_chosen (over_harness rep task hs confs)
        ≡ (if pr rep && pt task then count_of ph hs * count_of pc confs else 0)
  over_harness-count rep task [] confs = ground (arith, zero-mul (count_of pc confs))
  over_harness-count rep task (h ∷ hs) confs =
      count_of-append is_chosen (over_configs rep task h 0 confs) (over_harness rep task hs confs)
      ∙ ground (
        arith,
        over_configs-count rep task h 0 confs,
        over_harness-count rep task hs confs,
        suc-mul (count_of ph hs) (count_of pc confs),
      )

  over_tasks-count :
      (rep : ℕ) (ts : List String) (hs : List Bool) (confs : List Config)
      → count_of is_chosen (over_tasks rep ts hs confs)
        ≡ (if pr rep then count_of pt ts * (count_of ph hs * count_of pc confs) else 0)
  over_tasks-count rep [] hs confs = ground (arith, zero-mul (count_of ph hs * count_of pc confs))
  over_tasks-count rep (task ∷ ts) hs confs =
      count_of-append is_chosen (over_harness rep task hs confs) (over_tasks rep ts hs confs)
      ∙ ground (
        arith,
        over_harness-count rep task hs confs,
        over_tasks-count rep ts hs confs,
        suc-mul (count_of pt ts) (count_of ph hs * count_of pc confs),
      )

  rounds-count :
      (rs : List ℕ) (ts : List String) (hs : List Bool) (confs : List Config)
      → count_of is_chosen (rounds rs ts hs confs)
        ≡ count_of pr rs * (count_of pt ts * (count_of ph hs * count_of pc confs))
  rounds-count [] ts hs confs =
      sym (zero-mul (count_of pt ts * (count_of ph hs * count_of pc confs)))
  rounds-count (r ∷ rs) ts hs confs =
      count_of-append is_chosen (over_tasks r ts hs confs) (rounds rs ts hs confs)
      ∙ ground (
        arith,
        over_tasks-count r ts hs confs,
        rounds-count rs ts hs confs,
        suc-mul (count_of pr rs) (count_of pt ts * (count_of ph hs * count_of pc confs)),
      )

count_of-map :
    {A B : Type 0} (p : B → Bool) (f : A → B) (xs : List A)
    → count_of p (map f xs) ≡ count_of (λ x. p (f x)) xs
count_of-map p f [] = refl
count_of-map p f (x ∷ xs) = ap (λ (n : ℕ). if p (f x) then suc n else n) (count_of-map p f xs)

-- What a run takes from its config: the model, the effort, the driver and the level.
abbrev pub Setting : Type 0
Setting = String × Option String × Option String × Option ℕ

abbrev pub setting_of : Run → Setting
setting_of run = (run.model, run.effort, run.driver, run.harness_level)

-- What a config gives a run of a sweep, whose driver and level stand in for those it leaves out.
abbrev pub setting_in : List (String × String) → SweepConfig → Config → Setting
setting_in winning s c = (
  c.model,
  resolve_effort (or_else c.effort (some "high")) c.model winning,
  or_else c.driver s.driver,
  or_else c.harness_level s.harness_level,
)

module _ (spell : Text → String) (winning : List (String × String)) where
  module _ (pr : ℕ → Bool) (pt : String → Bool) (ph : Bool → Bool) (ps : Setting → Bool) where
    abbrev pub meets : Run → Bool
    meets run = all_four (pr run.rep) (pt run.task) (ph run.harness) (ps (setting_of run))

    build_run-meets :
        (s : SweepConfig) (shuffled : List String) (r : Round) (x : Key4 × Run)
        → build_run spell winning s shuffled r ≡ ok x
        → meets x.1 ≡ is_chosen pr pt ph (λ c. ps (setting_in winning s c)) r
    build_run-meets s shuffled r x h =
        let effort = resolve_effort (or_else r.conf.effort (some "high")) r.conf.model winning in
        let (id, _, k) = bind-ok (build_run_id (cell_of s r effort)) _ x h in
        ap (λ (y : Key4 × Run). meets y.1)
          (sym (ok_inj (sort_key shuffled r, run_of spell winning s r effort id) x k))

    build_all-count :
        (s : SweepConfig) (shuffled : List String) (rs : List Round) (xs : List (Key4 × Run))
        → build_all spell winning s shuffled rs ≡ ok xs
        → count_of (λ x. meets x.1) xs
          ≡ count_of (is_chosen pr pt ph (λ c. ps (setting_in winning s c))) rs
    build_all-count s shuffled [] xs h = ap (count_of (λ x. meets x.1)) (sym (ok_inj [] xs h))
    build_all-count s shuffled (r ∷ rs) xs h =
        let (x, a, h1) = bind-ok (build_run spell winning s shuffled r) _ xs h in
        let (ys, b, h2) = bind-ok (build_all spell winning s shuffled rs) _ xs h1 in
        let rest = count_of (is_chosen pr pt ph (λ c. ps (setting_in winning s c))) rs in
        ap (count_of (λ (y : Key4 × Run). meets y.1)) (sym (ok_inj (x ∷ ys) xs h2))
        ∙ ap (λ (n : ℕ). if meets x.1 then suc n else n) (build_all-count s shuffled rs ys b)
        ∙ ap (λ (m : Bool). if m then suc rest else rest) (build_run-meets s shuffled r x a)

    -- A sweep that is built is the product of its lists, whatever the shuffle: of any choice of
    -- repetitions, tasks, harness options and settings (model, resolved effort, driver and level) it has
    -- as many runs as there are such repetitions, times such tasks, times such harness options, times
    -- configs with such a setting.
    pub build_sweep-balanced :
        (s : SweepConfig) (shuffled : List String) (runs : List Run)
        → build_sweep spell winning s shuffled ≡ ok runs
        → count_of
            (λ run. all_four (pr run.rep) (pt run.task) (ph run.harness) (ps (setting_of run)))
            runs
          ≡ count_of pr s.reps
            * (count_of pt s.tasks
                * (count_of ph s.harness_opts
                    * count_of (λ c. ps (setting_in winning s c)) s.configs))
    unfolding build_sweep
    build_sweep-balanced s shuffled runs h =
        let all = rounds s.reps s.tasks s.harness_opts s.configs in
        let (xs, a, k) = bind-ok (build_all spell winning s shuffled all) _ runs h in
        ap (count_of meets) (sym (ok_inj _ runs k))
        ∙ count_of-map meets (λ (x : Key4 × Run). x.1) (sorted_by_key xs)
        ∙ count_of-sorted (λ (x : Key4 × Run). meets x.1) xs
        ∙ build_all-count s shuffled all xs a
        ∙ rounds-count pr pt ph (λ c. ps (setting_in winning s c)) s.reps s.tasks s.harness_opts
            s.configs
