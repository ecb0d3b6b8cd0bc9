-- ===== src/Judge/Tests.antt =====
-- judge.py on two passing runs, one judged before and one not, and a run that failed.
use model_eval.Prelude.{
  not, any_of, true, Option, none, some, List, [], ◌∷◌, ◌++◌, ◌≡◌, ◌↔◌, String, ◌=?◌, refl,
  string_key, map, keep, all_of, ok,
}
use model_eval.RunId.{parse_run_id}
use model_eval.RunId.Digits.{parse_digits, scan}
use model_eval.Judge.{
  Graded, Bench, passing_run_ids, already_judged, judge_each, judge_one, judge_from_results,
  todo_of,
}
use model_eval.Judge.Work.{is_about, is_passing, id_of, judge_from_results-judges}

abbrev bench : Bench
bench = record {
  has_scratch = λ id. id =? "s1--opus--low--bare--t1--r1";
  claude_says = λ _. "";
  codex_says = λ _. "";
  extracts = λ _. true;
  ts = "2026-07-01T00:00:00Z";
  loads = λ _. none;
  lines = λ _. [];
  is_blank = λ _. true;
  spell = λ _. "";
}

abbrev prior : List (Option String)
prior = none ∷ some "s1--opus--low--bare--t0--r1" ∷ []

abbrev passed_ids : List String
passed_ids = "s1--opus--low--bare--t0--r1" ∷ "s1--opus--low--bare--t1--r1" ∷ []

abbrev results : List (Option Graded)
results =
    some (record {
      run_id = some "s1--opus--low--bare--t0--r1";
      exit_reason = some "ok";
      passed = true;
    })
    ∷ none
    ∷ some (record {
      run_id = some "s1--opus--low--bare--t1--r1";
      exit_reason = some "ok";
      passed = true;
    })
    ∷ some (record {
      run_id = some "s1--opus--low--bare--t2--r1";
      exit_reason = some "timeout";
      passed = true;
    })
    ∷ []

results-ids : passing_run_ids results ≡ ok passed_ids
unfolding passing_run_ids
results-ids = refl

results-quiet : (judge_from_results bench true true results prior []).0.stopped ≡ none
unfolding judge_from_results parse_run_id parse_digits scan passing_run_ids already_judged
    judge_each judge_one
results-quiet = refl

judge_from_results-judges_example :
    (let (q, code) = judge_from_results bench true true results prior [] in
      (map some passed_ids ≡ map id_of (keep is_passing results))
      × (todo_of passed_ids prior ≡ keep (λ id. not (any_of (is_about id) prior)) passed_ids)
      × (q.judgments ≡ prior ++ map some (keep bench.has_scratch (todo_of passed_ids prior)))
      × ((code ≡ 0) ↔ (all_of bench.has_scratch (todo_of passed_ids prior) ≡ true)))
judge_from_results-judges_example =
    judge_from_results-judges bench true true results prior [] passed_ids results-ids results-quiet
