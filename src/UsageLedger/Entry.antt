-- ===== src/UsageLedger/Entry.antt =====
-- usage_ledger.py, `build_usage_row` and `retrofit`. The ledger is the list of its rows; appending a row
-- is durable, so a row that was appended before an exception stays.
pub mod Status
pub mod Retrofit
use model_eval.Prelude.{
  ℕ, ◌+◌, String, Bool, true, false, ◌&&◌, Option, none, some, List, [], ◌∷◌, ◌++◌, string_key,
  ◌=?◌, ◌==◌, contains, lookup, or_else, is_some, if◌then◌else◌, Result, ok, err,
}
use model_eval.Json.{Json}
use model_eval.Rows.{Row}
use model_eval.Registry.{RegistryError, Spec, resolve_model}
use model_eval.UsageLedger.{
  Price, UndeclaredFamily, pricing, scaffold_floor_tokens, usd_estimate, parses_claude_json,
}
use model_eval.UsageLedger.Parse.{UsageDetail, parse_usage_detailed}

-- One row of usage.jsonl. The two constant sources of the code are present exactly with their figures.
pub record UsageRow : Type 0 where
  pub run_id : String
  pub ts : Option String
  pub kind : String
  pub judged_run_id : Option String
  pub model : Option String
  pub model_id : Option String
  pub family : String
  pub tokens_in : ℕ
  pub tokens_out : ℕ
  pub cache_read_tokens : ℕ
  pub cache_creation_tokens : ℕ
  pub scaffold_overhead_tokens : Option ℕ
  pub billing_mode : String
  pub usd_estimate : Option ℕ
  pub pricing_date : Option String
  pub retrofit_status : String

-- `a or b` on texts.
abbrev pub text_or : Option String → Option String → Option String
text_or none b = b
text_or (some a) b = if a =? "" then b else some a

-- What the three branches settle: the counts and the status.
pub record Counts : Type 0 where
  pub tokens_in : ℕ
  pub tokens_out : ℕ
  pub cache_read : ℕ
  pub cache_creation : ℕ
  pub retrofit_status : String

abbrev pub stored : ℕ → ℕ → String → Counts
stored tokens_in tokens_out status = record {
  tokens_in = tokens_in;
  tokens_out = tokens_out;
  cache_read = 0;
  cache_creation = 0;
  retrofit_status = status;
}

unfoldable pub counts_of : Row → String → Option UsageDetail → Counts
counts_of row family (some d) = record {
  tokens_in = d.tokens_in;
  tokens_out = d.tokens_out;
  cache_read = d.cache_read_tokens;
  cache_creation = d.cache_creation_tokens;
  retrofit_status = "measured";
}
counts_of row family none =
    let stored_ti = or_else row.tokens_in 0 in
    let stored_to = or_else row.tokens_out 0 in
    if stored_ti == 0 && stored_to == 0
    then stored stored_ti stored_to "not_applicable_zero_tokens"
    else stored stored_ti stored_to
        (if family =? "codex" then "measured" else "unfixable_floor_only")

-- A lookup by a key that may be null.
abbrev pub lookup? {ℓ} : {V : Type ℓ} → Option String → List (String × V) → Option V
lookup? none d = none
lookup? (some k) d = lookup k d

abbrev pub estimate? : Option String → Counts → Option ℕ
estimate? none c = none
estimate? (some id) c = usd_estimate id c.tokens_in c.tokens_out c.cache_read c.cache_creation

-- `run_id` is `row["run_id"]`.
unfoldable pub build_usage_row :
    Row → String → String → Option UsageDetail → Option String → String → Option String → UsageRow
unfolding counts_of
build_usage_row row run_id family usage_detail model_id kind judged_run_id =
    let id = text_or model_id (text_or row.model_id row.model) in
    let c = counts_of row family usage_detail in
    record {
      run_id = run_id;
      ts = row.ts;
      kind = kind;
      judged_run_id = judged_run_id;
      model = row.model;
      model_id = id;
      family = family;
      tokens_in = c.tokens_in;
      tokens_out = c.tokens_out;
      cache_read_tokens = c.cache_read;
      cache_creation_tokens = c.cache_creation;
      scaffold_overhead_tokens = lookup? id scaffold_floor_tokens;
      billing_mode = if family =? "kimi" then "metered" else "subscription";
      usd_estimate = estimate? id c;
      pricing_date = elim (lookup? id pricing) [ none ↦ none | some price ↦ some price.date ];
      retrofit_status = c.retrofit_status;
    }

-- The canonical id and the family, or what `except ValueError` puts in their place.
abbrev pub identity_of :
    Result RegistryError (String × Spec) → Option String → Option String × String
identity_of (ok (mid, spec)) model = (some mid, spec.family)
identity_of (err e) model = (model, "unknown")

-- A row of the results has the key `model`, as every row that the driver writes; at a row without it the
-- code raises KeyError, which is not modelled. `none` is a null.
unfoldable pub identify : Option String → Option String × String
identify none = (none, "unknown")
identify (some model) = identity_of (resolve_model model) (some model)

-- The ledger, the ids in it, and the counts of `retrofit`; `raised` says that an exception ended it.
pub record Progress : Type 0 where
  pub ledger : List UsageRow
  pub already : List String
  pub written : ℕ
  pub skipped_existing : ℕ
  pub raised : Bool

module _ {Text : Type 0} (loads : Text → Option Json) (lines : Text → List Text)
    (is_blank : Text → Bool) (transcript : String → Option Text) where
  -- `usage_detail` of one row: `none` is an exception, `some none` no transcript to parse.
  abbrev pub detail_of : String → String → Option (Option UsageDetail)
  detail_of rid family = elim (transcript rid) [
    | none ↦ some none
    | some out ↦
        if parses_claude_json family
        then elim (parse_usage_detailed loads lines is_blank family out) [
          | err e ↦ none
          | ok parsed ↦ elim parsed [ none ↦ none | some d ↦ some (some d) ]
        ]
        else some none
  ]

  -- The body of the loop for a row with a run id that is not yet in the ledger.
  abbrev pub ledger_row : Row → String → Progress → Progress
  ledger_row row rid p =
      let (model_id, family) = identify row.model in
      elim (detail_of rid family) [
        | none ↦ record p { raised = true }
        | some detail ↦ record p {
          ledger = p.ledger ++ build_usage_row row rid family detail model_id "worker" none ∷ [];
          already = rid ∷ p.already;
          written = p.written + 1;
        }
      ]

  abbrev pub retrofit_row : Row → Progress → Progress
  retrofit_row row p = elim row.run_id [
    | none ↦ p
    | some rid ↦
        if rid =? ""
        then p
        else if contains rid p.already
        then record p { skipped_existing = p.skipped_existing + 1 }
        else ledger_row row rid p
  ]

  unfoldable pub retrofit_rows : List Row → Progress → Progress
  retrofit_rows [] p = p
  retrofit_rows (row ∷ rows) p = if p.raised then p else retrofit_rows rows (retrofit_row row p)

  abbrev pub ids : List UsageRow → List String
  ids [] = []
  ids (u ∷ ledger) = u.run_id ∷ ids ledger

  unfoldable pub retrofit : List Row → List UsageRow → Progress
  unfolding retrofit_rows
  retrofit rows ledger = retrofit_rows rows (record {
    ledger = ledger;
    already = ids ledger;
    written = 0;
    skipped_existing = 0;
    raised = false;
  })
