-- ===== src/UsageLedger/Entry/Retrofit.antt =====
-- usage_ledger.py, `retrofit`: running it again over the same rows ledgers nothing twice.
use model_eval.Prelude.{
  ◌≡◌, refl, sym, subst, ◌∙◌, String, Bool, true, false, Option, none, some, List, [], ◌∷◌, ◌++◌,
  arith, string_key, eq_iff, ◌=?◌, contains, if◌then◌else◌, All, Option-cases, Bool-cases, inl, inr,
}
use model_eval.Json.{Json}
use model_eval.Rows.{Row}
use model_eval.UsageLedger.Entry.{
  UsageRow, Progress, build_usage_row, identify, detail_of, ledger_row, retrofit_row, retrofit_rows,
  ids, retrofit,
}

module _ {Text : Type 0} (loads : Text → Option Json) (lines : Text → List Text)
    (is_blank : Text → Bool) (transcript : String → Option Text) where
  abbrev row_step : Row → Progress → Progress
  row_step = retrofit_row loads lines is_blank transcript

  abbrev rows_step : List Row → Progress → Progress
  rows_step = retrofit_rows loads lines is_blank transcript

  -- Whether the loop has nothing to write for this row.
  abbrev settled : List String → Row → Bool
  settled already row = elim row.run_id [
    | none ↦ true
    | some rid ↦ if rid =? "" then true else contains rid already
  ]

  abbrev id_list : List UsageRow → List String
  id_list = ids loads lines is_blank transcript

  -- The set of ids and the ledger name the same runs.
  abbrev SameIds : Progress → Type 0
  SameIds p = (x : String) → contains x p.already ≡ contains x (id_list p.ledger)

  contains-ids :
      (x : String) (ledger : List UsageRow) (u : UsageRow)
      → contains x (id_list (ledger ++ u ∷ []))
        ≡ (if x =? u.run_id then true else contains x (id_list ledger))
  contains-ids x [] u = refl
  contains-ids x (v ∷ ledger) u = ground (arith, contains-ids x ledger u)

  ledger_row-SameIds :
      (row : Row) (rid : String) (p : Progress)
      → SameIds p
      → SameIds (ledger_row loads lines is_blank transcript row rid p)
  unfolding build_usage_row
  ledger_row-SameIds row rid p h x =
      let (model_id, family) = identify row.model in
      elim (Option-cases (detail_of loads lines is_blank transcript rid family)) [
        | inl e ↦ ground (arith, h x)
        | inr (d, e) ↦ ground (
          arith,
          h x,
          contains-ids x p.ledger (build_usage_row row rid family d model_id "worker" none),
        )
      ]

  row_step-SameIds : (row : Row) (p : Progress) → SameIds p → SameIds (row_step row p)
  row_step-SameIds row p h x = elim (Option-cases row.run_id) [
    | inl e ↦ ground (arith, h x)
    | inr (rid, e) ↦ ground (arith, h x, ledger_row-SameIds row rid p h x)
  ]

  rows_step-SameIds : (rows : List Row) (p : Progress) → SameIds p → SameIds (rows_step rows p)
  unfolding retrofit_rows
  rows_step-SameIds [] p h x = h x
  rows_step-SameIds (row ∷ rows) p h x =
      ground (arith, h x, rows_step-SameIds rows (row_step row p) (row_step-SameIds row p h) x)

  row_step-grows :
      (row : Row) (p : Progress) (x : String)
      → contains x p.already ≡ true
      → contains x (row_step row p).already ≡ true
  row_step-grows row p x h = ground arith

  rows_step-grows :
      (rows : List Row) (p : Progress) (x : String)
      → contains x p.already ≡ true
      → contains x (rows_step rows p).already ≡ true
  unfolding retrofit_rows
  rows_step-grows [] p x h = h
  rows_step-grows (row ∷ rows) p x h =
      ground (arith, rows_step-grows rows (row_step row p) x (row_step-grows row p x h))

  raised_stays :
      (rows : List Row) (p : Progress) → p.raised ≡ true → (rows_step rows p).raised ≡ true
  unfolding retrofit_rows
  raised_stays [] p h = h
  raised_stays (row ∷ rows) p h = ground arith

  row_step-settles :
      (row : Row) (p : Progress)
      → p.raised ≡ false
      → (row_step row p).raised ≡ false
      → settled (row_step row p).already row ≡ true
  row_step-settles row p h k = elim (Option-cases row.run_id) [
    | inl e ↦ ground arith
    | inr (rid, e) ↦ ground (arith, eq_iff rid rid)
  ]

  settled-grows :
      (row : Row) (rows : List Row) (p : Progress)
      → settled p.already row ≡ true
      → settled (rows_step rows p).already row ≡ true
  settled-grows row rows p h = elim (Option-cases row.run_id) [
    | inl e ↦ ground arith
    | inr (rid, e) ↦ ground (arith, rows_step-grows rows p rid)
  ]

  rows_step-cons :
      (row : Row) (rows : List Row) (p : Progress)
      → p.raised ≡ false
      → rows_step (row ∷ rows) p ≡ rows_step rows (row_step row p)
  unfolding retrofit_rows
  rows_step-cons row rows p h = ground arith

  every-settled :
      (rows : List Row) (p : Progress)
      → p.raised ≡ false
      → (rows_step rows p).raised ≡ false
      → All (λ row. settled (rows_step rows p).already row ≡ true) rows
  every-settled [] p h k = tt
  every-settled (row ∷ rows) p h k =
      let e = rows_step-cons row rows p h in
      let k' : (rows_step rows (row_step row p)).raised ≡ false =
        subst (λ (q : Progress). q.raised ≡ false) e k in
      elim (Bool-cases (row_step row p).raised) [
        | inl bad ↦ absurd (ground (arith, raised_stays rows (row_step row p) bad))
        | inr good ↦
            subst (λ (q : Progress). All (λ r. settled q.already r ≡ true) (row ∷ rows)) (sym e)
              (
                settled-grows row rows (row_step row p) (row_step-settles row p h good),
                every-settled rows (row_step row p) good k',
              )
      ]

  -- A pass over settled rows writes nothing.
  abbrev Idle : Progress → Progress → Type 0
  Idle p q =
      (q.ledger ≡ p.ledger)
      × (q.already ≡ p.already)
      × (q.written ≡ p.written)
      × (q.raised ≡ p.raised)

  row_step-Idle :
      (row : Row) (p : Progress) → settled p.already row ≡ true → Idle p (row_step row p)
  row_step-Idle row p h = elim (Option-cases row.run_id) [
    | inl e ↦ ground arith
    | inr (rid, e) ↦ ground arith
  ]

  rows_step-Idle :
      (rows : List Row) (p : Progress)
      → All (λ row. settled p.already row ≡ true) rows
      → Idle p (rows_step rows p)
  unfolding retrofit_rows
  rows_step-Idle [] p h = ground arith
  rows_step-Idle (row ∷ rows) p h =
      let (a, b, c, d) = row_step-Idle row p h.0 in
      ground (arith, rows_step-Idle rows (row_step row p) (rw b h.1))

  settled-same :
      (p : Progress) (row : Row)
      → SameIds p
      → settled p.already row ≡ settled (id_list p.ledger) row
  settled-same p row h = elim (Option-cases row.run_id) [
    | inl e ↦ ground arith
    | inr (rid, e) ↦ ground (arith, h rid)
  ]

  every-settled-same :
      (rows : List Row) (p : Progress)
      → SameIds p
      → All (λ row. settled p.already row ≡ true) rows
      → All (λ row. settled (id_list p.ledger) row ≡ true) rows
  every-settled-same [] p h k = tt
  every-settled-same (row ∷ rows) p h k =
      (sym (settled-same p row h) ∙ k.0, every-settled-same rows p h k.1)

  -- Where `retrofit` starts.
  abbrev start : List UsageRow → Progress
  start ledger = record {
    ledger = ledger;
    already = id_list ledger;
    written = 0;
    skipped_existing = 0;
    raised = false;
  }

  -- After a pass that no exception ended, a second pass over the same rows raises nothing, writes
  -- nothing and leaves the ledger as it is.
  pub retrofit-again :
      (rows : List Row) (ledger : List UsageRow)
      → (retrofit loads lines is_blank transcript rows ledger).raised ≡ false
      → let q = retrofit loads lines is_blank transcript rows ledger in
        let again = retrofit loads lines is_blank transcript rows q.ledger in
        (again.ledger ≡ q.ledger) × (again.written ≡ 0) × (again.raised ≡ false)
  unfolding retrofit
  retrofit-again rows ledger h =
      let q = rows_step rows (start ledger) in
      let same = rows_step-SameIds rows (start ledger) (λ x. refl) in
      let (a, b, c, d) =
        rows_step-Idle rows (start q.ledger)
          (every-settled-same rows q same (every-settled rows (start ledger) refl h)) in
      (a, c, d)
