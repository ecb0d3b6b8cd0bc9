-- ===== src/RunId/Sound.antt =====
-- run_id.py, `parse_run_id`: the fields that were read, joined, are the id that was read.
use model_eval.Prelude.{
  ℕ, ◌≡◌, ◌≢◌, refl, ap, ◌∙◌, false, ◌&&◌, some, List, [], ◌∷◌, ◌++◌, arith, ◌==◌, ok, Bool-cases,
  Option-cases, inl, inr,
}
use model_eval.RunId.{
  Text, dash, join, split, extend_first, take_back, Cell, text_parts, parse_rep, read_segments,
  is_judge_run_id, parse_run_id,
}

extend_first-join : (c : ℕ) (ps : List Text) → ps ≢ [] → join (extend_first c ps) ≡ c ∷ join ps
extend_first-join c [] h = absurd (h refl)
extend_first-join c (p ∷ []) h = refl
extend_first-join c (p ∷ q ∷ ps) h = refl

split-ne-nil : (s : Text) → split s ≢ []
split-ne-nil [] = ground arith
split-ne-nil (a ∷ []) = ground arith
split-ne-nil (a ∷ b ∷ s) = elim (Bool-cases (a == dash && b == dash)) [
  | inl delim ↦ rw delim (ground arith)
  | inr other ↦ rw other (extended a (split (b ∷ s)))
]
  where
    extended : (c : ℕ) (ps : List Text) → extend_first c ps ≢ []
    extended c [] = ground arith
    extended c (p ∷ ps) = ground arith

join_empty : (ps : List Text) → ps ≢ [] → join ([] ∷ ps) ≡ dash ∷ dash ∷ join ps
join_empty [] h = absurd (h refl)
join_empty (p ∷ ps) h = refl

pub join-split : (s : Text) → join (split s) ≡ s
join-split [] = refl
join-split (a ∷ []) = refl
join-split (a ∷ b ∷ s) = elim (Bool-cases (a == dash && b == dash)) [
  | inl delim ↦ rw delim (join_empty (split s) (split-ne-nil s) ∙ ground (arith, join-split s))
  | inr other ↦ rw other (
      extend_first-join a (split (b ∷ s)) (split-ne-nil (b ∷ s))
      ∙ ap (λ r. a ∷ r) (join-split (b ∷ s)))
]

take_back-eq-some :
    (ps front : List Text) (task rep : Text)
    → take_back ps ≡ some (front, task, rep)
    → (front ++ task ∷ []) ++ rep ∷ [] ≡ ps
take_back-eq-some [] front task rep h = cc
take_back-eq-some (p ∷ []) front task rep h = cc
take_back-eq-some (p ∷ q ∷ []) front task rep h = ground arith
take_back-eq-some (p ∷ q ∷ r ∷ ps) front task rep h = elim (Option-cases (take_back (q ∷ r ∷ ps))) [
  | inl e ↦ absurd (ground arith)
  | inr ((front', task', rep'), e) ↦
      let rest = take_back-eq-some (q ∷ r ∷ ps) front' task' rep' e in ground arith
]

read_segments-eq-ok :
    (ps : List Text) (c : Cell)
    → read_segments ps ≡ ok c
    → (seg : Text) × (text_parts c ++ seg ∷ [] ≡ ps) × (parse_rep seg ≡ some c.rep)
read_segments-eq-ok (sweep ∷ model ∷ effort ∷ harness ∷ rest) c h =
    elim (Option-cases (take_back rest)) [
      | inl e ↦ absurd (ground arith)
      | inr ((extra, task, rep), e) ↦
          let back = take_back-eq-some rest extra task rep e in
          elim (Option-cases (parse_rep rep)) [
            | inl n ↦ absurd (ground arith)
            | inr (k, n) ↦ (rep, ground arith, ground arith)
          ]
    ]
read_segments-eq-ok [] c h = absurd (ground arith)
read_segments-eq-ok (a ∷ []) c h = absurd (ground arith)
read_segments-eq-ok (a ∷ b ∷ []) c h = absurd (ground arith)
read_segments-eq-ok (a ∷ b ∷ d ∷ []) c h = absurd (ground arith)

-- What is read of a worker's id loses nothing: its text fields and one more segment, joined, are the id,
-- and that segment says the rep.
pub join-parse_run_id :
    (t : Text) (c : Cell)
    → parse_run_id t ≡ ok c
    → (seg : Text) × (join (text_parts c ++ seg ∷ []) ≡ t)
      × (parse_rep seg ≡ some c.rep)
      × (is_judge_run_id t ≡ false)
unfolding parse_run_id
join-parse_run_id [] c h = absurd (ground arith)
join-parse_run_id (a ∷ s) c h = elim (Bool-cases (is_judge_run_id (a ∷ s))) [
  | inl judge ↦ absurd (ground arith)
  | inr worker ↦
      let (seg, e, n) = read_segments-eq-ok (split (a ∷ s)) c (ground arith) in
      (seg, ap join e ∙ join-split (a ∷ s), n, worker)
]
