-- ===== src/SpendCap/Report.antt =====
-- spend_cap.py, `metering_report`: what the cap can and cannot meter, over a list of models. The
-- verdicts, which the report hands on, are left out of the record.
pub mod Texts
pub mod Split
use model_eval.Prelude.{
  ℕ, suc, String, Bool, true, false, not, List, [], ◌∷◌, map, keep, length, string_key, ◌=?◌,
  contains, if◌then◌else◌, Result, ok, err, ◌>>=◌, Option, none, some,
}
use model_eval.Registry.{RegistryError, models}
use model_eval.UsageLedger.{text_ge}
use model_eval.SpendCap.{Metering, metering_capability}

pub record MeteringReport : Type 0 where
  pub inspected : ℕ
  pub meterable_ids : List String
  pub refused_ids : List String
  pub meterable_families : List String
  pub refused_families : List String

-- `sorted(xs)`, by insertion.
abbrev pub insert_text : String → List String → List String
insert_text s [] = s ∷ []
insert_text s (t ∷ ts) = if text_ge t s then s ∷ t ∷ ts else t ∷ insert_text s ts

abbrev pub sorted : List String → List String
sorted [] = []
sorted (s ∷ ss) = insert_text s (sorted ss)

-- The elements of a set display, each once.
abbrev pub set_of : List String → List String
set_of [] = []
set_of (s ∷ ss) = let rest = set_of ss in if contains s rest then rest else s ∷ rest

-- `[metering_capability(i) for i in ids]`
unfoldable pub verdicts_of : List String → Result RegistryError (List Metering)
verdicts_of [] = ok []
verdicts_of (id ∷ ids) = do v ← metering_capability id; rest ← verdicts_of ids; ok (v ∷ rest)

abbrev pub is_refused : Metering → Bool
is_refused v = not v.meterable

abbrev pub ids_of : List Metering → List String
ids_of vs = map (λ (v : Metering). v.model_id) vs

abbrev pub families_of : List Metering → List String
families_of vs = sorted (set_of (map (λ (v : Metering). v.family) vs))

abbrev pub report_of : List Metering → MeteringReport
report_of verdicts =
    let meterable = keep (λ (v : Metering). v.meterable) verdicts in
    let refused = keep is_refused verdicts in
    let meterable_families = families_of meterable in
    record {
      inspected = length verdicts;
      meterable_ids = ids_of meterable;
      refused_ids = ids_of refused;
      meterable_families = meterable_families;
      refused_families = sorted (
          keep (λ f. not (contains f meterable_families))
            (set_of (map (λ (v : Metering). v.family) refused)));
    }

abbrev pub ids_or_all : Option (List String) → List String
ids_or_all none = map (λ (e : String × _). e.0) models
ids_or_all (some ids) = ids

unfoldable pub metering_report : Option (List String) → Result RegistryError MeteringReport
unfolding verdicts_of
metering_report ids = do verdicts ← verdicts_of (sorted (ids_or_all ids)); ok (report_of verdicts)
