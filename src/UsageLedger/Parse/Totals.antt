-- ===== src/UsageLedger/Parse/Totals.antt =====
-- `parse_usage_detailed`: the totals of the two branches are consistent, and the codex totals are sums.
use model_eval.Prelude.{
  ◌+◌, ◌≤◌, ◌≡◌, refl, String, Bool, true, Option, none, some, List, [], ◌∷◌, ◌++◌, arith,
  Option-cases, ◌⊎◌, inl, inr, ok, Bool-cases,
}
use model_eval.Prelude.Options.{◌>>=◌}
use model_eval.Json.{Json, get, has_type, fields_of, get_count}
use model_eval.UsageLedger.{ParseBranch, parse_branch}
use model_eval.UsageLedger.Parse.{
  UsageDetail, no_usage, claude_usage, codex_event, codex_lines, claude_object,
  parse_usage_detailed,
}

-- What the cache counters may say beside the total.
abbrev pub CacheFits : UsageDetail → Type 0
CacheFits d = d.cache_read_tokens + d.cache_creation_tokens ≤ d.tokens_in

>>=-eq-some {ℓ κ} :
    {A : Type ℓ} {B : Type κ} (m : Option A) (f : A → Option B) {b : B}
    → (m >>= f) ≡ some b
    → (a : A) × (m ≡ some a) × (f a ≡ some b)
>>=-eq-some none f h = cc
>>=-eq-some (some a) f h = (a, refl, h)

claude_usage-CacheFits :
    (found : Json) (d : UsageDetail) → claude_usage found ≡ some d → CacheFits d
unfolding claude_usage
claude_usage-CacheFits (Json.obj fields) d h =
    let (u, e0, h0) = >>=-eq-some (fields_of (get "usage" fields)) _ h in
    let (a, e1, h1) = >>=-eq-some (get_count "input_tokens" u) _ h0 in
    let (b, e2, h2) = >>=-eq-some (get_count "cache_creation_input_tokens" u) _ h1 in
    let (c, e3, h3) = >>=-eq-some (get_count "cache_read_input_tokens" u) _ h2 in
    let (o, e4, h4) = >>=-eq-some (get_count "output_tokens" u) _ h3 in
    let (t, e5, h5) = >>=-eq-some (get_count "num_turns" fields) _ h4 in ground arith
claude_usage-CacheFits _ d h = ground arith

-- Counters added one by one.
abbrev pub plus : UsageDetail → UsageDetail → UsageDetail
plus a b = record {
  tokens_in = a.tokens_in + b.tokens_in;
  tokens_out = a.tokens_out + b.tokens_out;
  cache_read_tokens = a.cache_read_tokens + b.cache_read_tokens;
  cache_creation_tokens = a.cache_creation_tokens + b.cache_creation_tokens;
  turns = a.turns + b.turns;
}

abbrev pub plus_maybe : UsageDetail → Option UsageDetail → Option UsageDetail
plus_maybe a none = none
plus_maybe a (some b) = some (plus a b)

plus_assoc :
    (a b : UsageDetail) (c : Option UsageDetail)
    → plus_maybe (plus a b) c ≡ plus_maybe a (plus_maybe b c)
plus_assoc a b none = refl
plus_assoc a b (some c) = ground arith

plus-none : (c : Option UsageDetail) → plus_maybe no_usage c ≡ c
plus-none none = refl
plus-none (some c) = ground arith

codex_event-plus :
    (event : Json) (acc : UsageDetail)
    → codex_event event acc ≡ plus_maybe acc (codex_event event no_usage)
unfolding codex_event
codex_event-plus (Json.obj fields) acc = ground arith
codex_event-plus _ acc = ground arith

codex_event-no_creation :
    (event : Json) (acc b : UsageDetail)
    → codex_event event acc ≡ some b
    → b.cache_creation_tokens ≡ acc.cache_creation_tokens
unfolding codex_event
codex_event-no_creation (Json.obj fields) acc b h =
    elim (Bool-cases (has_type "turn.completed" (Json.obj fields))) [
      | inl completed ↦ turn_event completed
      | inr other ↦ ground arith
    ]
  where
    turn_event :
        has_type "turn.completed" (Json.obj fields) ≡ true
        → b.cache_creation_tokens ≡ acc.cache_creation_tokens
    turn_event completed =
        let (u, e0, h0) = >>=-eq-some (fields_of (get "usage" fields)) _ (rw completed at h) in
        let (a, e1, h1) = >>=-eq-some (get_count "input_tokens" u) _ h0 in
        let (c, e2, h2) = >>=-eq-some (get_count "cached_input_tokens" u) _ h1 in
        let (o, e3, h3) = >>=-eq-some (get_count "output_tokens" u) _ h2 in ground arith
codex_event-no_creation _ acc b h = ground arith

module _ {Text : Type 0} (loads : Text → Option Json) (lines : Text → List Text)
    (is_blank : Text → Bool) where
  codex_lines-plus :
      (ls : List Text) (acc : UsageDetail)
      → codex_lines loads lines is_blank ls acc
        ≡ plus_maybe acc (codex_lines loads lines is_blank ls no_usage)
  unfolding codex_lines
  codex_lines-plus [] acc = ground arith
  codex_lines-plus (line ∷ rest) acc = elim (Option-cases (loads line)) [
    | inl e ↦ ground (arith, codex_lines-plus rest acc)
    | inr (event, e) ↦ elim (Option-cases (codex_event event no_usage)) [
      | inl q ↦ ground (arith, codex_event-plus event acc, codex_lines-plus rest acc)
      | inr (b, q) ↦ ground (
        arith,
        codex_event-plus event acc,
        codex_lines-plus rest acc,
        codex_lines-plus rest b,
        codex_lines-plus rest (plus acc b),
        plus_assoc acc b (codex_lines loads lines is_blank rest no_usage),
      )
    ]
  ]

  -- The counters of a codex stream are the sums over its parts: reading one list of lines behind
  -- another adds the counters of both, and raises where either does.
  pub codex_lines-append :
      (xs ys : List Text)
      → codex_lines loads lines is_blank (xs ++ ys) no_usage ≡ (
          codex_lines loads lines is_blank xs no_usage >>= λ a.
          plus_maybe a (codex_lines loads lines is_blank ys no_usage))
  unfolding codex_lines
  codex_lines-append [] ys =
      ground (arith, plus-none (codex_lines loads lines is_blank ys no_usage))
  codex_lines-append (line ∷ xs) ys = elim (Option-cases (loads line)) [
    | inl e ↦ ground (arith, codex_lines-append xs ys)
    | inr (event, e) ↦ elim (Option-cases (codex_event event no_usage)) [
      | inl q ↦ ground (arith, codex_lines-append xs ys)
      | inr (b, q) ↦ elim (Option-cases (codex_lines loads lines is_blank xs no_usage)) [
        | inl n ↦
            ground (
              arith,
              codex_lines-append xs ys,
              codex_lines-plus (xs ++ ys) b,
              codex_lines-plus xs b,
            )
        | inr (a, n) ↦ ground (
          arith,
          codex_lines-append xs ys,
          codex_lines-plus (xs ++ ys) b,
          codex_lines-plus xs b,
          plus_assoc b a (codex_lines loads lines is_blank ys no_usage),
        )
      ]
    ]
  ]

  codex_lines-no_creation :
      (ls : List Text) (acc d : UsageDetail)
      → codex_lines loads lines is_blank ls acc ≡ some d
      → d.cache_creation_tokens ≡ acc.cache_creation_tokens
  unfolding codex_lines
  codex_lines-no_creation [] acc d h = ground arith
  codex_lines-no_creation (line ∷ rest) acc d h = elim (Option-cases (loads line)) [
    | inl e ↦ ground (arith, codex_lines-no_creation rest acc d)
    | inr (event, e) ↦ elim (Option-cases (codex_event event acc)) [
      | inl q ↦ ground (arith, codex_lines-no_creation rest acc d)
      | inr (b, q) ↦ ground (
        arith,
        codex_lines-no_creation rest acc d,
        codex_lines-no_creation rest b d,
        codex_event-no_creation event acc b q,
      )
    ]
  ]

  -- Where parsing gives counters, those of the claude-shaped branch have at most `tokens_in` tokens
  -- read from the cache and written to it together, and those of the codex branch have no cache
  -- creation.
  pub parse_usage_detailed-totals :
      (family : String) (out : Text) (branch : ParseBranch) (d : UsageDetail)
      → parse_branch family ≡ ok branch
      → parse_usage_detailed loads lines is_blank family out ≡ ok (some d)
      → ((branch ≡ ParseBranch.claude_json) × CacheFits d)
        ⊎ ((branch ≡ ParseBranch.codex_jsonl) × (d.cache_creation_tokens ≡ 0))
  unfolding parse_usage_detailed
  parse_usage_detailed-totals family out ParseBranch.claude_json d e h =
      elim (Option-cases (claude_object loads lines is_blank out)) [
        | inl q ↦ ground arith
        | inr (found, q) ↦ ground (arith, claude_usage-CacheFits found d)
      ]
  parse_usage_detailed-totals family out ParseBranch.codex_jsonl d e h =
      ground (arith, codex_lines-no_creation (lines out) no_usage d)
