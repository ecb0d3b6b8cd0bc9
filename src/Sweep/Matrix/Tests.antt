-- ===== src/Sweep/Matrix/Tests.antt =====
-- run.py, `build_runs` at a concrete sweep.
use model_eval.Prelude.{
  All, not, ◌==◌, or_else, Bool, ◌*◌, ◌≡◌, refl, String, false, none, some, List, [], ◌∷◌,
  string_key, ◌=?◌, count_of, ok,
}
use model_eval.Registry.{resolve_model}
use model_eval.RunId.{Text, build_run_id}
use model_eval.Sweep.{Run}
use model_eval.Sweep.Matrix.Sort.{key_le, insert_by_key, sorted_by_key}
use model_eval.RunId.RoundTrip.{IsCell}
use model_eval.Sweep.Matrix.ReadBack.{effort_in, IsReadBack, build_sweep-IsReadBack}
use model_eval.Sweep.Matrix.{
  cell_of, rounds, Config, SweepConfig, resolve_effort, same_upper, build_sweep,
}
use model_eval.Sweep.Matrix.Balance.{
  build_sweep-balanced, all_four, Setting, setting_of, setting_in,
}

abbrev fable : Config
fable = record {
  model = "fable";
  effort = some (some "winning");
  driver = none;
  harness_level = none;
}

abbrev sol : Config
sol = record fable { model = "sol"; effort = none }

abbrev sweep : SweepConfig
sweep = record {
  name = "s";
  reps = 1 ∷ [];
  tasks = "t1-a" ∷ "t1-b" ∷ [];
  harness_opts = false ∷ [];
  configs = fable ∷ sol ∷ [];
  driver = none;
  harness_level = none;
}

-- Every id is spelled alike here.
abbrev spell : Text → String
spell [] = ""
spell (c ∷ cs) = "id"

abbrev run : String → String → String → Run
run model effort task = record {
  run_id = "id";
  sweep = "s";
  model = model;
  effort = some effort;
  harness = false;
  driver = none;
  harness_level = none;
  task = task;
  rep = 1;
}

abbrev interleaved : List Run
interleaved =
    run "fable" "medium" "t1-b"
    ∷ run "sol" "high" "t1-b"
    ∷ run "fable" "medium" "t1-a"
    ∷ run "sol" "high" "t1-a"
    ∷ []

builds : build_sweep spell (("fable", "medium") ∷ []) sweep ("t1-b" ∷ "t1-a" ∷ []) ≡ ok interleaved
unfolding build_sweep resolve_effort same_upper resolve_model build_run_id key_le insert_by_key
    sorted_by_key
builds = refl

abbrev is_medium : Setting → Bool
is_medium (model, effort, driver, level) = or_else effort "" =? "medium"

build_sweep-balanced_example :
    count_of
      (λ run.
        all_four (run.rep == 1) (run.task =? "t1-b") (not run.harness) (is_medium (setting_of run)))
      interleaved
    ≡ count_of (λ rep. rep == 1) sweep.reps
      * (count_of (λ task. task =? "t1-b") sweep.tasks
          * (count_of not sweep.harness_opts
              * count_of
                  (λ c. is_medium (setting_in (("fable", "medium") ∷ []) sweep c))
                  sweep.configs))
build_sweep-balanced_example =
    build_sweep-balanced spell (("fable", "medium") ∷ []) (λ rep. rep == 1) (λ task. task =? "t1-b")
      not is_medium sweep ("t1-b" ∷ "t1-a" ∷ []) interleaved builds

reads_back :
    All
      (λ r. IsCell (cell_of sweep r (effort_in (("fable", "medium") ∷ []) r)))
      (rounds sweep.reps sweep.tasks sweep.harness_opts sweep.configs)
unfolding resolve_effort same_upper resolve_model
reads_back = (
  record {
    clean = ((refl, refl), ((refl, refl), ((refl, refl), ((refl, refl), ((refl, refl), tt)))));
    filled = refl;
    worker = refl;
  },
  (
    record {
      clean = ((refl, refl), ((refl, refl), ((refl, refl), ((refl, refl), ((refl, refl), tt)))));
      filled = refl;
      worker = refl;
    },
    (
      record {
        clean = ((refl, refl), ((refl, refl), ((refl, refl), ((refl, refl), ((refl, refl), tt)))));
        filled = refl;
        worker = refl;
      },
      (
        record {
          clean =
              ((refl, refl), ((refl, refl), ((refl, refl), ((refl, refl), ((refl, refl), tt)))));
          filled = refl;
          worker = refl;
        },
        tt,
      ),
    ),
  ),
)

build_sweep-IsReadBack_example : All (IsReadBack spell) interleaved
build_sweep-IsReadBack_example =
    build_sweep-IsReadBack spell (("fable", "medium") ∷ []) sweep ("t1-b" ∷ "t1-a" ∷ []) interleaved
      reads_back builds
