-- ===== src/RunId/Tests.antt =====
-- run_id.py: one cell with an extension, two cells that share an id, and a judge's id.
use model_eval.Prelude.{some, false, ◌≡◌, ◌≢◌, refl, [], ◌∷◌, ◌++◌, ok, err}
use model_eval.RunId.{
  Text, codes, dash, Cell, RunIdError, build_run_id, parse_run_id, labels, build_judge_run_id,
  parse_judge_run_id, join, parse_rep, is_judge_run_id, text_parts,
}
use model_eval.RunId.Digits.{format, digits, parse_digits, scan}
use model_eval.RunId.RoundTrip.{IsCell, parse-build, build_run_id-collides}
use model_eval.RunId.Sound.{join-parse_run_id}
use model_eval.RunId.Judge.{parse-build_judge}

abbrev cell : Cell
cell = record {
  sweep = codes "s1";
  model = codes "kimi-k3";
  effort = codes "low";
  harness = codes "bare";
  extra = codes "seed=4" ∷ [];
  task = codes "fix-lint";
  rep = 12;
}

cell-IsCell : IsCell cell
cell-IsCell = record {
  clean = (
    (refl, refl),
    ((refl, refl), ((refl, refl), ((refl, refl), ((refl, refl), ((refl, refl), tt))))),
  );
  filled = refl;
  worker = refl;
}

parse-build_example : (t : Text) × (build_run_id cell ≡ ok t) × (parse_run_id t ≡ ok cell)
parse-build_example = parse-build cell cell-IsCell

written : build_run_id cell ≡ ok (codes "s1--kimi-k3--low--bare--seed=4--fix-lint--r12")
unfolding build_run_id format digits
written = refl

abbrev read_text : Text
read_text = codes "s1--kimi-k3--low--bare--seed=4--fix-lint--r12"

read_back : parse_run_id read_text ≡ ok cell
unfolding parse_run_id parse_digits scan
read_back = refl

join-parse_run_id_example :
    (seg : Text) × (join (text_parts cell ++ seg ∷ []) ≡ read_text)
    × (parse_rep seg ≡ some cell.rep)
    × (is_judge_run_id read_text ≡ false)
join-parse_run_id_example = join-parse_run_id read_text cell read_back

labelled : labels (codes "seed=4" ∷ codes "plain" ∷ []) ≡ (codes "seed", codes "4") ∷ []
unfolding labels
labelled = refl

abbrev shared : Text
shared = codes "s1---kimi-k3--low--bare--seed=4--fix-lint--r12"

dash_behind : build_run_id (record cell { sweep = cell.sweep ++ dash ∷ [] }) ≡ ok shared
unfolding build_run_id format digits
dash_behind = refl

dash_before : build_run_id (record cell { model = dash ∷ cell.model }) ≡ ok shared
unfolding build_run_id format digits
dash_before = refl

build_run_id-collides_example :
    ((t : Text) × (build_run_id (record cell { sweep = cell.sweep ++ dash ∷ [] }) ≡ ok t)
      × (build_run_id (record cell { model = dash ∷ cell.model }) ≡ ok t)
      × (parse_run_id t ≡ ok (record cell { model = dash ∷ cell.model })))
    × (cell.sweep ++ dash ∷ [] ≢ cell.sweep)
    × (build_run_id (record cell { sweep = cell.sweep ++ dash ∷ dash ∷ [] })
        ≡ err RunIdError.contains_delimiter)
build_run_id-collides_example = build_run_id-collides cell cell-IsCell refl

-- A sweep of this name is written, and its ids are taken for those of a judge.
judged_sweep :
    (t : Text) × (build_run_id (record cell { sweep = codes "judge-s" }) ≡ ok t)
    × (parse_run_id t ≡ err RunIdError.is_a_judge_id)
unfolding build_run_id parse_run_id format digits
judged_sweep = (codes "judge-s--kimi-k3--low--bare--seed=4--fix-lint--r12", refl, refl)

parse-build_judge_example :
    (t : Text) × (build_judge_run_id (codes "sol") (codes "s1--a--b--c--t--r0") ≡ ok t)
    × (parse_judge_run_id t ≡ ok (codes "sol", codes "s1--a--b--c--t--r0"))
    × (parse_run_id t ≡ err RunIdError.is_a_judge_id)
parse-build_judge_example =
    parse-build_judge (codes "sol") (codes "s1--a--b--c--t--r0") (λ h. cc) (λ h. cc) (refl, refl)
