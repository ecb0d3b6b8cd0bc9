-- ===== src/CorpusGuard/Tests.antt =====
-- corpus_guard.py: a file system of four paths that does not tell letter cases apart.
use model_eval.Prelude.{
  ℕ, ◌<◌, ◌≡◌, ◌⊎◌, refl, sym, subst, Bool-cases, inl, inr, String, Option, none, some, [], ◌∷◌,
  string_key, ◌=?◌, eq_iff, arith, contains, if◌then◌else◌,
}
use model_eval.CorpusGuard.{FileSystem, refuse_scratch_inside_results}
use model_eval.CorpusGuard.Inside.{IsRooted, refuse_scratch-ends, refuse_scratch-inside}

abbrev parent : String → String
parent path =
    if path =? "/r/RESULTS/work"
    then "/r/RESULTS"
    else if path =? "/r/RESULTS"
    then "/r"
    else if path =? "/r"
    then "/"
    else path

abbrev files : FileSystem
files = record {
  exists = λ path. contains path ("/" ∷ "/r" ∷ "/r/results" ∷ "/r/RESULTS" ∷ []);
  samefile = λ a b. if a =? "/r/RESULTS" then some (b =? "/r/results") else none;
  dirname = parent;
  abspath = λ path. path;
  realpath = λ path. path;
  normcase = λ path. path;
  commonpath = λ a b. some "/r";
}

abbrev depth : String → ℕ
depth path =
    if path =? "/r/RESULTS/work"
    then 3
    else if path =? "/r/RESULTS"
    then 2
    else if path =? "/r"
    then 1
    else 0

abbrev Climbs : String → Type 0
Climbs path = (parent path ≡ path) ⊎ (depth (parent path) < depth path)

climbs : (path : String) → Climbs path
climbs path = elim (Bool-cases (path =? "/r/RESULTS/work")) [
  | inl e ↦ subst Climbs (sym ((eq_iff path "/r/RESULTS/work").0 e)) (inr (omega arith))
  | inr a ↦ elim (Bool-cases (path =? "/r/RESULTS")) [
    | inl e ↦ subst Climbs (sym ((eq_iff path "/r/RESULTS").0 e)) (inr (omega arith))
    | inr b ↦ elim (Bool-cases (path =? "/r")) [
      | inl e ↦ subst Climbs (sym ((eq_iff path "/r").0 e)) (inr (omega arith))
      | inr c ↦ inl (rw (a, b, c) refl)
    ]
  ]
]

files-IsRooted : IsRooted files depth
files-IsRooted = record { climbs = climbs }

refuse_scratch-ends_example :
    (answer : Option (String × String)) × (refuse_scratch_inside_results files 4 "/r/RESULTS/work"
        "/r/results"
      ≡ some answer)
refuse_scratch-ends_example =
    refuse_scratch-ends files depth 4 "/r/RESULTS/work" "/r/results" files-IsRooted (omega arith)
      (omega arith)

refuse_scratch-inside_example :
    refuse_scratch_inside_results files 4 "/r/RESULTS/work" "/r/results"
    ≡ some (some ("/r/RESULTS/work", "/r/results"))
refuse_scratch-inside_example =
    refuse_scratch-inside files depth 4 1 "/r/RESULTS/work" "/r/results" files-IsRooted
      (omega arith) (omega arith) refl (inl (refl, refl))
