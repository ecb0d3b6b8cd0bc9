-- ===== src/Sweep/Matrix.antt =====
-- run.py, `resolve_effort` and `build_runs` for one sweep of a config. The shuffle of Python's `random` is
-- given, and so is the text of a list of code points, since the ids of RunId are such lists. A text of
-- ASCII letters is compared without case where the code compares `upper()`.
pub mod Sort
pub mod Balance
pub mod ReadBack
mod Tests
use Prim.Native.Char.{code}
use Prim.Native.String
use model_eval.Prelude.{
  ℕ, zero, suc, ◌+◌, ◌-◌, String, Bool, true, false, not, ◌&&◌, ◌||◌, Option, none, some, List, [],
  ◌∷◌, ◌++◌, map, string_key, ◌=?◌, ◌==◌, leb, lookup, is_some, or_else, if◌then◌else◌, Result, ok,
  err, ◌>>=◌,
}
use model_eval.Registry.{Spec, RegistryError, aliases, resolve_model}
use model_eval.RunId.{Text, codes, RunIdError, Cell, build_run_id}
use model_eval.Sweep.{Run}
use model_eval.Sweep.Matrix.Sort.{Key4, sorted_by_key}

abbrev pub upper : ℕ → ℕ
upper c = if leb b'a' c && leb c b'z' then c - 32 else c

-- `s.upper() == t`, for t in upper case.
unfoldable pub same_upper : String → String → Bool
same_upper String.[] String.[] = true
same_upper String.[] (String.◌∷◌ d t) = false
same_upper (String.◌∷◌ c s) String.[] = false
same_upper (String.◌∷◌ c s) (String.◌∷◌ d t) =
    let rest = same_upper s t in upper (code c) == code d && rest

abbrev pub first_winning : List (String × String) → String → List (String × String) → String
first_winning [] mid winning = "high"
first_winning ((alias, canonical) ∷ rest) mid winning =
    let later = first_winning rest mid winning in
    if canonical =? mid && is_some (lookup alias winning)
    then or_else (lookup alias winning) "high"
    else later

abbrev pub winning_of_id : List (String × String) → Result RegistryError (String × Spec) → String
winning_of_id winning (err e) = "high"
winning_of_id winning (ok (mid, spec)) = elim (lookup mid winning) [
  | some v ↦ v
  | none ↦ first_winning aliases mid winning
]

abbrev pub winning_of : List (String × String) → String → String
winning_of winning model =
    if model =? "hybrid"
    then or_else (lookup "hybrid" winning) (or_else (lookup "fable" winning) "high")
    else elim (lookup model winning) [
      | some v ↦ v
      | none ↦ winning_of_id winning (resolve_model model)
    ]

unfoldable pub resolve_effort : Option String → String → List (String × String) → Option String
unfolding same_upper
resolve_effort none model winning = none
resolve_effort (some effort) model winning =
    if same_upper effort "WINNING" then some (winning_of winning model) else some effort

-- One entry of `configs`. `none` is an absent key, `some none` a null.
pub record Config : Type 0 where
  pub model : String
  pub effort : Option (Option String)
  pub driver : Option (Option String)
  pub harness_level : Option (Option ℕ)

-- One sweep of a config, its defaults filled in.
pub record SweepConfig : Type 0 where
  pub name : String
  pub reps : List ℕ
  pub tasks : List String
  pub harness_opts : List Bool
  pub configs : List Config
  pub driver : Option String
  pub harness_level : Option ℕ

-- One round of the four nested loops.
pub record Round : Type 0 where
  pub rep : ℕ
  pub task : String
  pub harness : Bool
  pub ci : ℕ
  pub conf : Config

abbrev pub over_configs : ℕ → String → Bool → ℕ → List Config → List Round
over_configs rep task harness ci [] = []
over_configs rep task harness ci (conf ∷ confs) =
    record { rep = rep; task = task; harness = harness; ci = ci; conf = conf }
    ∷ over_configs rep task harness (suc ci) confs

abbrev pub over_harness : ℕ → String → List Bool → List Config → List Round
over_harness rep task [] confs = []
over_harness rep task (h ∷ hs) confs =
    over_configs rep task h 0 confs ++ over_harness rep task hs confs

abbrev pub over_tasks : ℕ → List String → List Bool → List Config → List Round
over_tasks rep [] hs confs = []
over_tasks rep (t ∷ ts) hs confs = over_harness rep t hs confs ++ over_tasks rep ts hs confs

abbrev pub rounds : List ℕ → List String → List Bool → List Config → List Round
rounds [] ts hs confs = []
rounds (r ∷ rs) ts hs confs = over_tasks r ts hs confs ++ rounds rs ts hs confs

-- `{t: i for i, t in enumerate(shuffled)}.get(task, 0)`: the last place of a task that stands twice.
abbrev pub task_index : ℕ → String → List String → Option ℕ
task_index i task [] = none
task_index i task (t ∷ ts) =
    let later = task_index (suc i) task ts in
    if is_some later then later else if t =? task then some i else none

abbrev pub harness_tag : Bool → String
harness_tag true = "harness"
harness_tag false = "bare"

abbrev pub cell_of : SweepConfig → Round → Option String → Cell
cell_of s r effort = record {
  sweep = codes s.name;
  model = codes r.conf.model;
  effort = codes (or_else effort "");
  harness = codes (harness_tag r.harness);
  extra = [];
  task = codes r.task;
  rep = r.rep;
}

abbrev pub sort_key : List String → Round → Key4
sort_key shuffled r =
    (r.rep, or_else (task_index 0 r.task shuffled) 0, r.ci, if r.harness then 1 else 0)

module _ (spell : Text → String) (winning : List (String × String)) where
  abbrev pub run_of : SweepConfig → Round → Option String → Text → Run
  run_of s r effort id = record {
    run_id = spell id;
    sweep = s.name;
    model = r.conf.model;
    effort = effort;
    harness = r.harness;
    driver = or_else r.conf.driver s.driver;
    harness_level = or_else r.conf.harness_level s.harness_level;
    task = r.task;
    rep = r.rep;
  }

  -- The body of the loops.
  abbrev pub build_run : SweepConfig → List String → Round → Result RunIdError (Key4 × Run)
  build_run s shuffled r =
      let effort = resolve_effort (or_else r.conf.effort (some "high")) r.conf.model winning in
      build_run_id (cell_of s r effort) >>= λ id. ok (sort_key shuffled r, run_of s r effort id)

  abbrev pub build_all :
      SweepConfig → List String → List Round → Result RunIdError (List (Key4 × Run))
  build_all s shuffled [] = ok []
  build_all s shuffled (r ∷ rs) =
      build_run s shuffled r >>= λ x. (build_all s shuffled rs >>= λ xs. ok (x ∷ xs))

  unfoldable pub build_sweep : SweepConfig → List String → Result RunIdError (List Run)
  build_sweep s shuffled =
      build_all s shuffled (rounds s.reps s.tasks s.harness_opts s.configs) >>= λ xs.
      ok (map (λ x. x.1) (sorted_by_key xs))
