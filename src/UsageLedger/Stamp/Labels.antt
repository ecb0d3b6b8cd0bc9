-- ===== src/UsageLedger/Stamp/Labels.antt =====
-- usage_ledger.py, the stamps: they label and never recompute, and stamping again changes nothing.
use model_eval.Prelude.{
  ◌≡◌, refl, String, none, some, List, [], ◌∷◌, map, string_key, eq_iff, arith, ok, Result-cases,
  Option-cases, inl, inr,
}
use model_eval.Rows.{Row}
use model_eval.UsageLedger.Routing.{tokens_in_status_lem}
use model_eval.UsageLedger.Entry.{UsageRow}
use model_eval.UsageLedger.Stamp.{
  worker_row, status_in, version_of, family_of, stamped, stamp_provenance, status_of,
  stamp_invocation_mode, recovered_tokens_in,
}

-- A row without the two labels of `stamp_provenance`.
abbrev pub unlabelled : Row → Row
unlabelled row = record row { usage_parser_version = none; tokens_in_status = none }

-- Stamping keeps every row and all but its two labels, and stamping the result again with the same
-- ledger gives it back.
pub stamp_provenance-again :
    (ledger : List UsageRow) (rows out : List Row)
    → stamp_provenance ledger rows ≡ ok out
    → (map unlabelled out ≡ map unlabelled rows) × (stamp_provenance ledger out ≡ ok out)
unfolding stamp_provenance
stamp_provenance-again ledger [] out h = ground arith
stamp_provenance-again ledger (row ∷ rows) out h = elim (Result-cases (family_of row.model)) [
  | inr (e, q) ↦ absurd (ground arith)
  | inl (family, q) ↦ elim (Result-cases (stamp_provenance ledger rows)) [
    | inr (e, k) ↦ absurd (ground arith)
    | inl (rest, k) ↦ ground (arith, stamp_provenance-again ledger rows rest k)
  ]
]

abbrev pub without_mode : Row → Row
without_mode row = record row { invocation_mode = none }

-- Stamping the invocation mode keeps all of a row but that field, and stamping again changes nothing.
pub stamp_invocation_mode-again :
    (rows : List Row)
    → (map without_mode (stamp_invocation_mode rows) ≡ map without_mode rows)
      × (stamp_invocation_mode (stamp_invocation_mode rows) ≡ stamp_invocation_mode rows)
unfolding stamp_invocation_mode
stamp_invocation_mode-again [] = (refl, refl)
stamp_invocation_mode-again (row ∷ rows) = elim (Option-cases row.invocation_mode) [
  | inl e ↦ ground (arith, stamp_invocation_mode-again rows)
  | inr (mode, e) ↦ ground (arith, stamp_invocation_mode-again rows)
]

not_recovered :
    (rid : String) (ledger : List UsageRow)
    → worker_row (some rid) ledger ≡ none
    → recovered_tokens_in ledger rid ≡ none
unfolding recovered_tokens_in
not_recovered rid [] h = refl
not_recovered rid (u ∷ ledger) h = elim (Option-cases (worker_row (some rid) ledger)) [
  | inl e ↦ let rest = not_recovered rid ledger e in ground arith
  | inr (later, e) ↦ absurd (ground arith)
]

recovered_last :
    (rid : String) (ledger : List UsageRow) (u : UsageRow)
    → worker_row (some rid) ledger ≡ some u
    → u.retrofit_status ≡ "measured"
    → recovered_tokens_in ledger rid ≡ some u.tokens_in
unfolding recovered_tokens_in
recovered_last rid [] u h k = cc
recovered_last rid (v ∷ ledger) u h k = elim (Option-cases (worker_row (some rid) ledger)) [
  | inl e ↦
      let rest = not_recovered rid ledger e in
      ground (arith, eq_iff u.retrofit_status "measured", eq_iff v.retrofit_status "measured")
  | inr (later, e) ↦ let rest = recovered_last rid ledger later e in ground arith
]

-- A row that the stamp calls recovered joins: the last worker row of its run id in the ledger is the one
-- that `recovered_tokens_in` offers for it.
pub recovered-joins :
    (ledger : List UsageRow) (row : Row) (family rid : String)
    → row.run_id ≡ some rid
    → status_of (stamped ledger row family) ≡ "recovered_in_ledger"
    → (u : UsageRow) × (worker_row (some rid) ledger ≡ some u)
      × (recovered_tokens_in ledger rid ≡ some u.tokens_in)
recovered-joins ledger row family rid at h =
    let (_, recovered, _) =
      tokens_in_status_lem family (version_of row) (status_in (worker_row row.run_id ledger)) in
    let (_, _, measured) = recovered.0 h in
    let seen : status_in (worker_row (some rid) ledger) ≡ some "measured" = rw at at measured in
    elim (Option-cases (worker_row (some rid) ledger)) [
      | inl e ↦ absurd (cc (seen, e))
      | inr (u, e) ↦ (u, e, recovered_last rid ledger u e (ground arith))
    ]
