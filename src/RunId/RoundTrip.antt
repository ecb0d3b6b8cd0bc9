-- ===== src/RunId/RoundTrip.antt =====
-- run_id.py, `build_run_id` and `parse_run_id`: which cells come back from their ids, and how two cells
-- come to share one id.
use model_eval.Prelude.{
  List, true, err, ℕ, ◌≡◌, ◌≢◌, refl, ap, ◌∙◌, false, [], ◌∷◌, ◌++◌, append_assoc, arith, All, some,
  ok, Result-cases, inl, inr, sym, length, length-append,
}
use model_eval.RunId.Digits.{Text, AreDigits, format-AreDigits, parse_digits-format}
use model_eval.RunId.{
  dash, has_delim, join, split, Cell, RunIdError, text_parts, rep_text, format, parse_digits,
  build_run_id, parse_run_id, read_segments, check_fields, check_field, starts_with,
  is_judge_run_id, drop_newline, parse_rep, judge_prefix,
}
use model_eval.RunId.Split.{IsClean, split-join, take_back-append, starts_with-delim}

digits_lack_delim : (s : Text) → AreDigits s → has_delim s ≡ false
digits_lack_delim [] h = refl
digits_lack_delim (a ∷ []) h = refl
digits_lack_delim (a ∷ b ∷ s) h = ground (arith, digits_lack_delim (b ∷ s) h.1)

drop_newline-digits : (s : Text) → AreDigits s → drop_newline s ≡ s
drop_newline-digits [] h = refl
drop_newline-digits (c ∷ []) h = ground arith
drop_newline-digits (c ∷ d ∷ s) h = ground (arith, drop_newline-digits (d ∷ s) h.1)

rep_text-clean : (n : ℕ) → has_delim (rep_text n) ≡ false
rep_text-clean n = behind_r (format n) (format-AreDigits n)
  where
    behind_r : (s : Text) → AreDigits s → has_delim (b'r' ∷ s) ≡ false
    behind_r [] h = refl
    behind_r (c ∷ s) h = digits_lack_delim (c ∷ s) h

parse_rep-rep_text : (n : ℕ) → parse_rep (rep_text n) ≡ some n
parse_rep-rep_text n =
    ap parse_digits (drop_newline-digits (format n) (format-AreDigits n)) ∙ parse_digits-format n

-- A cell whose text fields neither hold the delimiter nor end in a dash, and whose id will not begin
-- as the id of a judge does.
pub record IsCell (c : Cell) : Type 0 where
  pub clean : All IsClean (text_parts c)
  pub filled : check_fields (text_parts c) ≡ ok tt
  pub worker : is_judge_run_id (c.sweep ++ dash ∷ dash ∷ []) ≡ false

built : (c : Cell) → IsCell c → build_run_id c ≡ ok (join (text_parts c ++ rep_text c.rep ∷ []))
unfolding build_run_id
built c h = ground (arith, h.filled)

read_back : (c : Cell) → IsCell c → read_segments (text_parts c ++ rep_text c.rep ∷ []) ≡ ok c
read_back c h =
    ground (arith, take_back-append c.extra c.task (rep_text c.rep), parse_rep-rep_text c.rep)

append-ne-nil : (s rest : Text) → s ++ dash ∷ rest ≢ []
append-ne-nil [] rest = ground arith
append-ne-nil (c ∷ s) rest = ground arith

parse-segments :
    (t : Text) → t ≢ [] → is_judge_run_id t ≡ false → parse_run_id t ≡ read_segments (split t)
unfolding parse_run_id
parse-segments [] h j = absurd (h refl)
parse-segments (c ∷ s) h j = rw j

-- The segments behind the sweep, joined.
abbrev behind_sweep : Cell → Text
behind_sweep c =
    join (c.model ∷ c.effort ∷ c.harness ∷ ((c.extra ++ c.task ∷ []) ++ rep_text c.rep ∷ []))

-- A cell whose text fields are not empty, do not hold the delimiter and do not end in a dash, and
-- whose id does not begin as that of a judge, is written, and reading the id gives every field of it
-- back.
pub parse-build :
    (c : Cell) → IsCell c → (t : Text) × (build_run_id c ≡ ok t) × (parse_run_id t ≡ ok c)
parse-build c h = (
  join (text_parts c ++ rep_text c.rep ∷ []),
  built c h,
  parse-segments (c.sweep ++ dash ∷ dash ∷ behind_sweep c)
        (append-ne-nil c.sweep (dash ∷ behind_sweep c))
        (starts_with-delim c.sweep judge_prefix (behind_sweep c) refl ∙ h.worker)
      ∙ ap read_segments (split-join (text_parts c) (rep_text c.rep) h.clean (rep_text-clean c.rep))
      ∙ read_back c h,
)

has_delim-end_dash : (s : Text) → IsClean s → has_delim (s ++ dash ∷ []) ≡ false
has_delim-end_dash [] h = refl
has_delim-end_dash (a ∷ []) h = ground (arith, h)
has_delim-end_dash (a ∷ b ∷ s) h = ground (arith, h, has_delim-end_dash (b ∷ s))

has_delim-end_dashes : (s : Text) → has_delim (s ++ dash ∷ dash ∷ []) ≡ true
has_delim-end_dashes [] = refl
has_delim-end_dashes (a ∷ []) = ground arith
has_delim-end_dashes (a ∷ b ∷ s) = ground (arith, has_delim-end_dashes (b ∷ s))

check_field-end_dash : (s : Text) → IsClean s → check_field (s ++ dash ∷ []) ≡ ok tt
check_field-end_dash [] h = refl
check_field-end_dash (c ∷ s) h = rw (has_delim-end_dash (c ∷ s) h) refl

check_field-end_dashes :
    (s : Text) → check_field (s ++ dash ∷ dash ∷ []) ≡ err RunIdError.contains_delimiter
check_field-end_dashes [] = refl
check_field-end_dashes (c ∷ s) = rw (has_delim-end_dashes (c ∷ s)) refl

-- A dash in front of a clean text that begins with none.
IsClean-dash :
    (s : Text)
    → check_field s ≡ ok tt
    → starts_with s (dash ∷ []) ≡ false
    → IsClean s
    → IsClean (dash ∷ s)
IsClean-dash [] f b h = absurd (ground (arith, f))
IsClean-dash (c ∷ []) f b h = (ground (arith, b), ground (arith, h.1))
IsClean-dash (c ∷ d ∷ s) f b h = (ground (arith, b, h.0), h.1)

check_fields-cons :
    (p : Text) (ps : List Text)
    → check_fields (p ∷ ps) ≡ ok tt
    → (check_field p ≡ ok tt) × (check_fields ps ≡ ok tt)
check_fields-cons p ps h = elim (Result-cases (check_field p)) [
  | inl (u, e) ↦ (e, rw e at h)
  | inr (x, e) ↦ absurd (cc (h, e))
]

abbrev behind_model : Cell → List Text
behind_model c = c.effort ∷ c.harness ∷ (c.extra ++ c.task ∷ [])

-- A cell with a dash in front of its model.
dashed-IsCell :
    (c : Cell)
    → IsCell c
    → starts_with c.model (dash ∷ []) ≡ false
    → IsCell (record c { model = dash ∷ c.model })
dashed-IsCell c h b =
    let (sweep_ok, rest) = check_fields-cons c.sweep (c.model ∷ behind_model c) h.filled in
    let (model_ok, more) = check_fields-cons c.model (behind_model c) rest in
    let dashed = IsClean-dash c.model model_ok b h.clean.1.0 in
    record {
      clean = (h.clean.0, (dashed, h.clean.1.1));
      filled = rw (sweep_ok, dashed.0) more;
      worker = h.worker;
    }

-- The ids of a cell with a dash behind its sweep and of the cell with that dash in front of its model.
shared_id :
    (c : Cell)
    → join (text_parts (record c { sweep = c.sweep ++ dash ∷ [] }) ++ rep_text c.rep ∷ [])
      ≡ join (text_parts (record c { model = dash ∷ c.model }) ++ rep_text c.rep ∷ [])
shared_id c = append_assoc c.sweep (dash ∷ []) (dash ∷ dash ∷ behind_sweep c)

build_run_id-end_dash :
    (c : Cell)
    → IsCell c
    → build_run_id (record c { sweep = c.sweep ++ dash ∷ [] })
      ≡ ok (join (text_parts (record c { sweep = c.sweep ++ dash ∷ [] }) ++ rep_text c.rep ∷ []))
unfolding build_run_id
build_run_id-end_dash c h =
    let (sweep_ok, rest) = check_fields-cons c.sweep (c.model ∷ behind_model c) h.filled in
    rw (check_field-end_dash c.sweep h.clean.0, rest) refl

build_run_id-end_dashes :
    (c : Cell)
    → build_run_id (record c { sweep = c.sweep ++ dash ∷ dash ∷ [] })
      ≡ err RunIdError.contains_delimiter
unfolding build_run_id
build_run_id-end_dashes c = rw (check_field-end_dashes c.sweep) refl

-- A cell as in `parse-build`, whose model does not begin with a dash, is also written with one dash
-- behind its sweep, though not with two; the id with one is that of the cell with the dash in front of
-- its model, and reading it gives that other cell back, whose sweep is another.
pub build_run_id-collides :
    (c : Cell)
    → IsCell c
    → starts_with c.model (dash ∷ []) ≡ false
    → ((t : Text) × (build_run_id (record c { sweep = c.sweep ++ dash ∷ [] }) ≡ ok t)
        × (build_run_id (record c { model = dash ∷ c.model }) ≡ ok t)
        × (parse_run_id t ≡ ok (record c { model = dash ∷ c.model })))
      × (c.sweep ++ dash ∷ [] ≢ c.sweep)
      × (build_run_id (record c { sweep = c.sweep ++ dash ∷ dash ∷ [] })
          ≡ err RunIdError.contains_delimiter)
build_run_id-collides c h b =
    let (t, written, read) =
      parse-build (record c { model = dash ∷ c.model }) (dashed-IsCell c h b) in
    (
      (
        t,
        build_run_id-end_dash c h
            ∙ ap ok (shared_id c)
            ∙ sym (built (record c { model = dash ∷ c.model }) (dashed-IsCell c h b))
            ∙ written,
        written,
        read,
      ),
      λ e. absurd (omega (arith, ap length e, length-append c.sweep (dash ∷ []))),
      build_run_id-end_dashes c,
    )
