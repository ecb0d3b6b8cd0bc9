-- ===== src/Sweep/Invoke/Recorded.antt =====
-- run.py, `main`: the results after the cells that cannot run were recorded.
use model_eval.Prelude.{
  ◌≡◌, refl, sym, ap, ◌∙◌, subst, String, true, false, List, [], ◌∷◌, ◌++◌, map, arith, string_key,
  eq_iff, ◌=?◌, contains, All, All-append, append_assoc, append-nil, Bool-cases, inl, inr,
}
use mathlib.Core.List.{map-append}
use model_eval.Sweep.{
  Run, ResultRow, Line, Corpus, done_reasons, existing_ids, recorded_impossible_ids,
  recorded_driver_unsupported_ids,
}
use model_eval.Sweep.Ids.{ids_with-append, ids_with-other}
use model_eval.Sweep.Execute.{Outside}
use model_eval.Sweep.Gate.{Sorting}
use model_eval.Sweep.Invoke.{State, begin, record_impossible, record_unsupported}
use model_eval.Sweep.Invoke.Record.{
  status_line, IsFreshStatus, IsRecording, record_cells-IsRecording,
}

abbrev pub status_reasons : List String
status_reasons = "structurally_impossible" ∷ "driver_unsupported" ∷ []

abbrev pub IsStatus : ResultRow → Type 0
IsStatus row = contains row.exit_reason status_reasons ≡ true

-- A state after the cells that cannot run were recorded.
pub record IsRecorded (corpus : Corpus) (s : State) : Type 0 where
  pub results : s.corpus.results ≡ corpus.results ++ map status_line s.recorded
  pub statuses : All IsStatus s.recorded
  pub ran : s.ran ≡ []
  pub spent : s.spent ≡ 0

pub begin-IsRecorded : (corpus : Corpus) → IsRecorded corpus (begin corpus)
begin-IsRecorded corpus = record {
  results = sym (append-nil corpus.results);
  statuses = tt;
  ran = refl;
  spent = refl;
}

IsStatus-of_fresh :
    (reason : String) (already : List String) (rows : List ResultRow)
    → contains reason status_reasons ≡ true
    → All (IsFreshStatus reason already) rows
    → All IsStatus rows
IsStatus-of_fresh reason already [] h k = tt
IsStatus-of_fresh reason already (row ∷ rows) h ((e, _), k) = (
  subst (λ (x : String). contains x status_reasons ≡ true) (sym e) h,
  IsStatus-of_fresh reason already rows h k,
)

more-IsRecorded :
    (corpus : Corpus) (reason : String) (already : List String) (s t : State)
    → contains reason status_reasons ≡ true
    → IsRecorded corpus s
    → IsRecording reason already s t
    → IsRecorded corpus t
more-IsRecorded corpus reason already s t h a r = record {
  results =
      r.results
      ∙ ap (λ (x : List Line). x ++ map status_line r.new) a.results
      ∙ append_assoc corpus.results (map status_line s.recorded) (map status_line r.new)
      ∙ ap (λ (x : List Line). corpus.results ++ x)
          (sym (map-append status_line s.recorded r.new) ∙ ap (map status_line) (sym r.recorded));
  statuses =
      subst (λ (x : List ResultRow). All IsStatus x) (sym r.recorded)
        (All-append IsStatus s.recorded r.new a.statuses
          (IsStatus-of_fresh reason already r.new h r.fresh));
  ran = r.ran ∙ a.ran;
  spent = r.spent ∙ a.spent;
}

status_not_done :
    (reason : String) → contains reason status_reasons ≡ true → contains reason done_reasons ≡ false
status_not_done reason h = elim (Bool-cases (reason =? "structurally_impossible")) [
  | inl e ↦
      subst (λ (x : String). contains x done_reasons ≡ false)
        (sym ((eq_iff reason "structurally_impossible").0 e)) (refl)
  | inr e ↦
      subst (λ (x : String). contains x done_reasons ≡ false)
        (sym ((eq_iff reason "driver_unsupported").0 (ground (arith, h, e)))) (refl)
]

pub not_done :
    (rows : List ResultRow)
    → All IsStatus rows
    → All (λ row. contains row.exit_reason done_reasons ≡ false) rows
not_done [] h = tt
not_done (row ∷ rows) (e, h) = (status_not_done row.exit_reason e, not_done rows h)

pub recorded-existing_ids :
    (corpus : Corpus) (s : State)
    → IsRecorded corpus s
    → existing_ids s.corpus.results ≡ existing_ids corpus.results
recorded-existing_ids corpus s a =
    ap existing_ids a.results
    ∙ ids_with-append done_reasons corpus.results (map status_line s.recorded)
    ∙ ap (λ (x : List String). existing_ids corpus.results ++ x)
        (ids_with-other done_reasons s.recorded (not_done s.recorded a.statuses))
    ∙ append-nil (existing_ids corpus.results)

pub cells-IsRecorded :
    (corpus : Corpus) (w : Run → Outside) (sorting : Sorting) (s : State)
    → IsRecorded corpus s
    → IsRecorded corpus (record_unsupported w sorting (record_impossible w sorting s))
cells-IsRecorded corpus w sorting s a =
    let t = record_impossible w sorting s in
    let b =
      more-IsRecorded corpus "structurally_impossible" (recorded_impossible_ids s.corpus.results) s
        t refl a
        (record_cells-IsRecording w "structurally_impossible"
          (recorded_impossible_ids s.corpus.results) sorting.impossible_runs s) in
    more-IsRecorded corpus "driver_unsupported" (recorded_driver_unsupported_ids t.corpus.results) t
      (record_unsupported w sorting t) refl b
      (record_cells-IsRecording w "driver_unsupported"
        (recorded_driver_unsupported_ids t.corpus.results) sorting.unsupported_runs t)
