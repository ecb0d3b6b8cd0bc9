-- ===== src/Judge/Work.antt =====
-- judge.py, `main`: which runs an invocation judges.
use model_eval.Prelude.{
  refl, contains, any_of, ◌=?◌, string_key, ℕ, ◌+◌, ◌≡◌, ◌↔◌, sym, ap, ◌∙◌, subst, String, Bool,
  true, false, not, ◌&&◌, ◌||◌, Option, none, some, List, [], ◌∷◌, ◌++◌, map, arith, keep, length,
  all_of, ltb, is_some, if◌then◌else◌, Result, ok, length-append, length-keep, keep-append,
  count_of-le, append_assoc, append-nil, bind-ok, ok_inj, if-cases, Bool-cases, inl, inr,
}
use mathlib.Core.List.{map-append}
use model_eval.UsageLedger.Entry.{UsageRow}
use model_eval.Judge.{
  Graded, JudgeError, is_ok, id_or_raise, passing_run_ids, already_judged, Bench, Panel, metering,
  write_judgment, judge_one, judge_each, todo_of, judge_todo, fresh_panel, judge_ids,
  judge_from_results,
}

-- A row of a run that finished and passed.
abbrev pub is_passing : Option Graded → Bool
is_passing none = false
is_passing (some row) = is_ok row.exit_reason && row.passed

abbrev pub id_of : Option Graded → Option String
id_of none = none
id_of (some row) = row.run_id

id_or_raise-ok : (o : Option String) (id : String) → id_or_raise o ≡ ok id → o ≡ some id
id_or_raise-ok none id h = absurd (ground (arith, h))
id_or_raise-ok (some x) id h = ap some (ok_inj x id h)

pub passing_run_ids-ok :
    (lines : List (Option Graded)) (ids : List String)
    → passing_run_ids lines ≡ ok ids
    → map some ids ≡ map id_of (keep is_passing lines)
unfolding passing_run_ids
passing_run_ids-ok [] ids h = ap (map some) (sym (ok_inj [] ids h))
passing_run_ids-ok (none ∷ lines) ids h = passing_run_ids-ok lines ids h
passing_run_ids-ok (some row ∷ lines) ids h =
    elim (if-cases (is_ok row.exit_reason && row.passed) _ _ (ok ids) h) [
      | inr (e, k) ↦
          passing_run_ids-ok lines ids k
          ∙ ap
              (λ (b : Bool).
                map id_of (if b then some row ∷ keep is_passing lines else keep is_passing lines))
              (sym e)
      | inl (e, k) ↦
          let (id, a, k1) = bind-ok (id_or_raise row.run_id) _ ids k in
          let (rest, b, k2) = bind-ok (passing_run_ids lines) _ ids k1 in
          ap (map some) (sym (ok_inj (id ∷ rest) ids k2))
          ∙ ap (λ (x : Option String). x ∷ map some rest) (sym (id_or_raise-ok row.run_id id a))
          ∙ ap (λ (x : List (Option String)). row.run_id ∷ x) (passing_run_ids-ok lines rest b)
          ∙ ap
              (λ (b : Bool).
                map id_of (if b then some row ∷ keep is_passing lines else keep is_passing lines))
              (sym e)
    ]

-- What a loop over some runs that no exception ended adds.
abbrev Judges : (String → Bool) → List String → Panel → Panel → Type 0
Judges exists ids p q =
    q.stopped ≡ none
    → (p.stopped ≡ none)
      × (q.judgments ≡ p.judgments ++ map some (keep exists ids))
      × (q.judged ≡ p.judged + length (keep exists ids))

write-Judges :
    (exists : String → Bool) (id : String) (m : List UsageRow × Option JudgeError) (p : Panel)
    → exists id ≡ true
    → Judges exists (id ∷ []) p (write_judgment id m p)
write-Judges exists id (rows, some e) p x h = absurd (ground (arith, h))
write-Judges exists id (rows, none) p x h = (
  h,
  ap (λ (b : Bool). p.judgments ++ map some (if b then id ∷ [] else [])) (sym x),
  omega (arith, ap (λ (b : Bool). length (if b then id ∷ [] else [])) x),
)

skip-Judges :
    (exists : String → Bool) (id : String) (p : Panel)
    → (is_some p.stopped || not (exists id)) ≡ true
    → Judges exists (id ∷ []) p p
skip-Judges exists id p e h =
    let absent : exists id ≡ false = ground (arith, e, h) in
    let none_left : (if exists id then id ∷ [] else []) ≡ [] =
      ap (λ (b : Bool). if b then id ∷ [] else []) absent in
    (
      h,
      sym (append-nil p.judgments)
          ∙ ap (λ (x : List String). p.judgments ++ map some x) (sym none_left),
      omega (arith, ap (length {0}) none_left),
    )

judge_one-Judges :
    (b : Bench) (mock has_usage : Bool) (id : String) (p : Panel)
    → Judges b.has_scratch (id ∷ []) p (judge_one b mock has_usage id p)
unfolding judge_one
judge_one-Judges b mock has_usage id p =
    let q = write_judgment id (metering b mock has_usage id) p in
    elim (Bool-cases (is_some p.stopped || not (b.has_scratch id))) [
      | inl e ↦
          subst (λ (x : Bool). Judges b.has_scratch (id ∷ []) p (if x then p else q)) (sym e)
            (skip-Judges b.has_scratch id p e)
      | inr e ↦
          subst (λ (x : Bool). Judges b.has_scratch (id ∷ []) p (if x then p else q)) (sym e)
            (write-Judges b.has_scratch id (metering b mock has_usage id) p (ground (arith, e)))
    ]

keep-cons :
    (exists : String → Bool) (id : String) (ids : List String)
    → keep exists (id ∷ ids) ≡ keep exists (id ∷ []) ++ keep exists ids
keep-cons exists id ids = keep-append exists (id ∷ []) ids

judge_each-Judges :
    (b : Bench) (mock has_usage : Bool) (ids : List String) (p : Panel)
    → Judges b.has_scratch ids p (judge_each b mock has_usage ids p)
unfolding judge_each
judge_each-Judges b mock has_usage [] p h = (h, sym (append-nil p.judgments), omega arith)
judge_each-Judges b mock has_usage (id ∷ ids) p h =
    let q = judge_one b mock has_usage id p in
    let one = keep b.has_scratch (id ∷ []) in
    let rest = keep b.has_scratch ids in
    let (later, more, n) = judge_each-Judges b mock has_usage ids q h in
    let (now, first, m) = judge_one-Judges b mock has_usage id p later in
    (
      now,
      more
          ∙ ap (λ (x : List (Option String)). x ++ map some rest) first
          ∙ append_assoc p.judgments (map some one) (map some rest)
          ∙ ap (λ (x : List (Option String)). p.judgments ++ x)
              (sym (map-append some one rest)
                ∙ ap (map some) (sym (keep-cons b.has_scratch id ids))),
      omega (arith, n, m, length-append one rest, ap (length {0}) (keep-cons b.has_scratch id ids)),
    )

kept_all :
    (exists : String → Bool) (ids : List String)
    → (ltb (length (keep exists ids)) (length ids) ≡ false) ↔ (all_of exists ids ≡ true)
kept_all exists [] = ground arith
kept_all exists (id ∷ ids) =
    ground (arith, kept_all exists ids, length-keep exists ids, count_of-le exists ids)

judged-code :
    (exists : String → Bool) (todo : List String) (n : ℕ)
    → n ≡ length (keep exists todo)
    → (◌≡◌ {A = ℕ} (if ltb n (length todo) then 1 else 0) 0) ↔ (all_of exists todo ≡ true)
judged-code exists todo n e =
    ground (arith, kept_all exists todo, ap (λ (k : ℕ). ltb k (length todo)) e)

-- What an invocation over some ids leaves, by its panel and its exit code.
abbrev Leaves : (String → Bool) → List (Option String) → List String → Panel × ℕ → Type 0
Leaves exists judgments todo (q, code) =
    (q.judgments ≡ judgments ++ map some (keep exists todo))
    × ((code ≡ 0) ↔ (all_of exists todo ≡ true))

judge_todo-Leaves :
    (b : Bench) (mock has_usage : Bool) (todo : List String) (judgments : List (Option String))
    (usage : List UsageRow)
    → (judge_todo b mock has_usage todo (fresh_panel judgments usage)).0.stopped ≡ none
    → Leaves b.has_scratch judgments todo
        (judge_todo b mock has_usage todo (fresh_panel judgments usage))
judge_todo-Leaves b mock has_usage todo judgments usage h =
    let p = fresh_panel judgments usage in
    let (now, added, n) = judge_each-Judges b mock has_usage todo p h in
    (
      added,
      judged-code b.has_scratch todo (judge_each b mock has_usage todo p).judged (omega (arith, n)),
    )

-- A line of the judgments that is about a run.
abbrev pub is_about : String → Option String → Bool
is_about id none = false
is_about id (some x) = id =? x

contains-already_judged :
    (id : String) (judgments : List (Option String))
    → contains id (already_judged judgments) ≡ any_of (is_about id) judgments
unfolding already_judged
contains-already_judged id [] = refl
contains-already_judged id (none ∷ lines) = contains-already_judged id lines
contains-already_judged id (some x ∷ lines) = ground (arith, contains-already_judged id lines)

todo_of-keep :
    (ids : List String) (judgments : List (Option String))
    → todo_of ids judgments ≡ keep (λ id. not (any_of (is_about id) judgments)) ids
todo_of-keep ids judgments = λ i. keep (λ id. not (contains-already_judged id judgments i)) ids

-- An invocation over the results that no exception ends takes up the ids of the rows that finished with
-- "ok" and passed, in their order and less those that the judgments have; it appends one judgment for
-- each of them whose scratch tree is there, and changes no judgment; and its exit code is 0 exactly when
-- all their trees are there.
pub judge_from_results-judges :
    (b : Bench) (mock has_usage : Bool) (results : List (Option Graded))
    (judgments : List (Option String)) (usage : List UsageRow) (ids : List String)
    → passing_run_ids results ≡ ok ids
    → (judge_from_results b mock has_usage results judgments usage).0.stopped ≡ none
    → (let (q, code) = judge_from_results b mock has_usage results judgments usage in
        (map some ids ≡ map id_of (keep is_passing results))
        × (todo_of ids judgments ≡ keep (λ id. not (any_of (is_about id) judgments)) ids)
        × (q.judgments ≡ judgments ++ map some (keep b.has_scratch (todo_of ids judgments)))
        × ((code ≡ 0) ↔ (all_of b.has_scratch (todo_of ids judgments) ≡ true)))
unfolding judge_from_results
judge_from_results-judges b mock has_usage results judgments usage ids e h =
    let p = fresh_panel judgments usage in
    let (added, code) =
      subst
        (λ (r : Result JudgeError (List String)).
          Leaves b.has_scratch judgments (todo_of ids judgments) (judge_ids b mock has_usage r p))
        (sym e)
        (judge_todo-Leaves b mock has_usage (todo_of ids judgments) judgments usage (
          subst
            (λ (r : Result JudgeError (List String)).
              (judge_ids b mock has_usage r p).0.stopped ≡ none)
            e h)) in
    (passing_run_ids-ok results ids e, todo_of-keep ids judgments, added, code)
