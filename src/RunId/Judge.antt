-- ===== src/RunId/Judge.antt =====
-- run_id.py, `build_judge_run_id` and `parse_judge_run_id`: the ids of judge calls, and that the two
-- namespaces do not meet.
use model_eval.Prelude.{◌≡◌, ◌≢◌, refl, ap, [], ◌∷◌, ◌++◌, arith, ok, err}
use model_eval.RunId.Digits.{Text}
use model_eval.RunId.{
  dash, RunIdError, judge_prefix, partition, both_parts, build_judge_run_id, parse_judge_run_id,
  parse_run_id,
}
use model_eval.RunId.Split.{IsClean}

partition-part : (p rest : Text) → IsClean p → partition (p ++ dash ∷ dash ∷ rest) ≡ (p, rest)
partition-part [] rest h = refl
partition-part (a ∷ []) rest h = ground arith
partition-part (a ∷ b ∷ s) rest h = ground (arith, partition-part (b ∷ s) rest)

-- A head that is not empty, does not hold the delimiter and does not end in a dash is written in
-- front of any text that is not empty; the id reads back as the head and the text, and the reader of
-- worker ids refuses it.
pub parse-build_judge :
    (head judged : Text)
    → head ≢ []
    → judged ≢ []
    → IsClean head
    → (t : Text) × (build_judge_run_id head judged ≡ ok t)
      × (parse_judge_run_id t ≡ ok (head, judged))
      × (parse_run_id t ≡ err RunIdError.is_a_judge_id)
unfolding build_judge_run_id parse_judge_run_id parse_run_id
parse-build_judge [] judged h j c = absurd (h refl)
parse-build_judge (a ∷ head) [] h j c = absurd (j refl)
parse-build_judge (a ∷ head) (b ∷ judged) h j c = (
  judge_prefix ++ (a ∷ head) ++ dash ∷ dash ∷ b ∷ judged,
  ground arith,
  ap both_parts (partition-part (a ∷ head) (b ∷ judged) c),
  refl,
)
