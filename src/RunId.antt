-- ===== src/RunId.antt =====
-- runner/run_id.py: the run id of one cell of the design, written and read. A text is the list of its
-- code points. A field is a text and a rep a number, as the type tests of the code demand; `\d` is read
-- as the ASCII digits. Errors carry no message.
pub mod Digits
pub mod Split
pub mod RoundTrip
pub mod Judge
pub mod Sound
mod Tests
pub use Digits.{Text, codes, format, parse_digits}
use model_eval.Prelude.{
  ℕ, ◌+◌, ◌-◌, String, Bool, true, false, not, ◌&&◌, ◌||◌, Option, none, some, List, [], ◌∷◌, ◌++◌,
  map, ◌==◌, leb, ltb, if◌then◌else◌, any_of, all_of, length, Result, ok, err, ◌>>=◌, ◌>>◌,
  raise_if, keep,
}

abbrev pub dash : ℕ
dash = b'-'

pub data RunIdError : Type 0 where
  empty_field contains_delimiter not_a_run_id is_a_judge_id too_few_segments no_rep bad_head
        not_a_judge_id :
      RunIdError

-- `DELIM in value`
abbrev pub has_delim : Text → Bool
has_delim [] = false
has_delim (a ∷ []) = false
has_delim (a ∷ b ∷ s) = (a == dash && b == dash) || has_delim (b ∷ s)

-- `DELIM.join(parts)`
abbrev pub join : List Text → Text
join [] = []
join (p ∷ []) = p
join (p ∷ q ∷ ps) = p ++ dash ∷ dash ∷ join (q ∷ ps)

-- Puts a code point in front of the first part.
abbrev pub extend_first : ℕ → List Text → List Text
extend_first c [] = (c ∷ []) ∷ []
extend_first c (p ∷ ps) = (c ∷ p) ∷ ps

-- `text.split(DELIM)`: the leftmost delimiter first, and none that overlaps it.
abbrev pub split : Text → List Text
split [] = [] ∷ []
split (a ∷ []) = (a ∷ []) ∷ []
split (a ∷ b ∷ s) =
    let after = split s in
    let rest = split (b ∷ s) in if a == dash && b == dash then [] ∷ after else extend_first a rest

-- `text.startswith(prefix)`
abbrev pub starts_with : Text → Text → Bool
starts_with s [] = true
starts_with [] (c ∷ p) = false
starts_with (d ∷ s) (c ∷ p) = d == c && starts_with s p

abbrev pub judge_prefix : Text
judge_prefix = codes "judge-"

abbrev pub is_judge_run_id : Text → Bool
is_judge_run_id run_id = starts_with run_id judge_prefix

-- The check of one field in `build_run_id`.
abbrev pub check_field : Text → Result RunIdError (Unit {0})
check_field [] = err RunIdError.empty_field
check_field (c ∷ s) = raise_if (has_delim (c ∷ s)) RunIdError.contains_delimiter

abbrev pub check_fields : List Text → Result RunIdError (Unit {0})
check_fields [] = ok tt
check_fields (p ∷ ps) = check_field p >> check_fields ps

pub record Cell : Type 0 where
  pub sweep : Text
  pub model : Text
  pub effort : Text
  pub harness : Text
  pub extra : List Text
  pub task : Text
  pub rep : ℕ

abbrev pub text_parts : Cell → List Text
text_parts c = c.sweep ∷ c.model ∷ c.effort ∷ c.harness ∷ (c.extra ++ c.task ∷ [])

-- f"r{rep}"
abbrev pub rep_text : ℕ → Text
rep_text n = b'r' ∷ format n

unfoldable pub build_run_id : Cell → Result RunIdError Text
build_run_id c = do check_fields (text_parts c); ok (join (text_parts c ++ rep_text c.rep ∷ []))

-- `$` also matches in front of a last newline.
abbrev pub drop_newline : Text → Text
drop_newline [] = []
drop_newline (c ∷ []) = if c == 10 then [] else c ∷ []
drop_newline (c ∷ d ∷ s) = c ∷ drop_newline (d ∷ s)

-- `int(REP_RE.match(segment).group(1))`
abbrev pub parse_rep : Text → Option ℕ
parse_rep [] = none
parse_rep (c ∷ s) = if c == b'r' then parse_digits (drop_newline s) else none

-- `parts[:-2]`, `parts[-2]` and `parts[-1]`
abbrev pub take_back : List Text → Option (List Text × Text × Text)
take_back [] = none
take_back (p ∷ []) = none
take_back (p ∷ q ∷ []) = some ([], p, q)
take_back (p ∷ q ∷ r ∷ ps) = elim (take_back (q ∷ r ∷ ps)) [
  | none ↦ none
  | some (front, task, rep) ↦ some (p ∷ front, task, rep)
]

abbrev with_rep : Text → Text → Text → Text → List Text → Text → Option ℕ → Result RunIdError Cell
with_rep sweep model effort harness extra task none = err RunIdError.no_rep
with_rep sweep model effort harness extra task (some rep) = ok (record {
  sweep = sweep;
  model = model;
  effort = effort;
  harness = harness;
  extra = extra;
  task = task;
  rep = rep;
})

-- From the segments on: four leading fields, extensions, the task and the rep.
abbrev pub read_segments : List Text → Result RunIdError Cell
read_segments (sweep ∷ model ∷ effort ∷ harness ∷ rest) = elim (take_back rest) [
  | none ↦ err RunIdError.too_few_segments
  | some (extra, task, rep) ↦ with_rep sweep model effort harness extra task (parse_rep rep)
]
read_segments _ = err RunIdError.too_few_segments

unfoldable pub parse_run_id : Text → Result RunIdError Cell
parse_run_id [] = err RunIdError.not_a_run_id
parse_run_id (c ∷ s) =
    if is_judge_run_id (c ∷ s) then err RunIdError.is_a_judge_id else read_segments (split (c ∷ s))

-- `text.partition("=")` at a text that holds it, and `None` where it holds none.
abbrev pub at_equals : Text → Option (Text × Text)
at_equals [] = none
at_equals (c ∷ s) =
    let rest = at_equals s in
    if c == b'='
    then some ([], s)
    else elim rest [ none ↦ none | some (name, value) ↦ some (c ∷ name, value) ]

-- The extensions of the form `name=value`, in order, before a dict keeps the last of each name.
pub labels : List Text → List (Text × Text)
labels [] = []
labels (segment ∷ extra) = elim (at_equals segment) [
  | none ↦ labels extra
  | some (name, value) ↦ elim name [ [] ↦ labels extra | c ∷ s ↦ (c ∷ s, value) ∷ labels extra ]
]

unfoldable pub build_judge_run_id : Text → Text → Result RunIdError Text
build_judge_run_id [] judged = err RunIdError.bad_head
build_judge_run_id (c ∷ head) judged =
    if has_delim (c ∷ head)
    then err RunIdError.bad_head
    else ok (judge_prefix ++ (c ∷ head) ++ dash ∷ dash ∷ judged)

-- `text.partition(DELIM)`, without the delimiter; two empty parts where there is none to the right.
abbrev pub partition : Text → Text × Text
partition [] = ([], [])
partition (a ∷ []) = (a ∷ [], [])
partition (a ∷ b ∷ s) =
    let rest = partition (b ∷ s) in if a == dash && b == dash then ([], s) else (a ∷ rest.0, rest.1)

-- `run_id[len(JUDGE_PREFIX):]`
abbrev pub after_prefix : Text → Text → Text
after_prefix [] s = s
after_prefix (c ∷ p) [] = []
after_prefix (c ∷ p) (d ∷ s) = after_prefix p s

abbrev both_parts : Text × Text → Result RunIdError (Text × Text)
both_parts ([], judged) = err RunIdError.not_a_judge_id
both_parts (c ∷ head, []) = err RunIdError.not_a_judge_id
both_parts (c ∷ head, d ∷ judged) = ok (c ∷ head, d ∷ judged)

unfoldable pub parse_judge_run_id : Text → Result RunIdError (Text × Text)
parse_judge_run_id run_id =
    if is_judge_run_id run_id
    then both_parts (partition (after_prefix judge_prefix run_id))
    else err RunIdError.not_a_judge_id
