-- ===== src/TokenUnits/Series.antt =====
-- token_units.py: the per-request series of the two kinds of session log, and the figures of a series.
use model_eval.Prelude.{
  ℕ, ◌+◌, String, Bool, false, ◌&&◌, Option, none, some, List, [], ◌∷◌, map, string_key, contains,
  ◌==◌, if◌then◌else◌, length,
}
use model_eval.Prelude.Int.{ℤ, pos, ◌+ℤ◌, ◌-ℤ◌, ltb_ℤ}

-- `Req`. The fresh part is a difference in the codex log, and may be negative.
pub record Req : Type 0 where
  pub fresh : ℤ
  pub cache_creation : ℕ
  pub cache_read : ℕ
  pub out : ℕ

-- `sum` of integers.
abbrev pub sum_ℤ : List ℤ → ℤ
sum_ℤ [] = pos 0
sum_ℤ (x ∷ xs) = x +ℤ sum_ℤ xs

abbrev pub sum : List ℕ → ℕ
sum [] = 0
sum (x ∷ xs) = x + sum xs

-- The full context that one request sent.
abbrev pub context : Req → ℤ
context r = r.fresh +ℤ pos r.cache_creation +ℤ pos r.cache_read

abbrev pub max_ℤ : ℤ → ℤ → ℤ
max_ℤ a b = if ltb_ℤ a b then b else a

abbrev pub last_or : ℤ → List ℤ → ℤ
last_or d [] = d
last_or d (x ∷ xs) = last_or x xs

abbrev pub greatest : ℤ → List ℤ → ℤ
greatest m [] = m
greatest m (x ∷ xs) = greatest (max_ℤ m x) xs

pub record Figures : Type 0 where
  pub requests : ℕ
  pub session_total : ℤ
  pub peak_context_final : ℤ
  pub peak_context_max : ℤ
  pub tokens_out : ℕ
  pub cache_read_total : ℕ

-- Without `cache_weighted`, which is a float.
unfoldable pub figures : List Req → Figures
figures series = record {
  requests = length series;
  session_total = sum_ℤ (map context series);
  peak_context_final = last_or (pos 0) (map context series);
  peak_context_max = elim (map context series) [ [] ↦ pos 0 | x ∷ xs ↦ greatest x xs ];
  tokens_out = sum (map (λ (r : Req). r.out) series);
  cache_read_total = sum (map (λ (r : Req). r.cache_read) series);
}

-- One line of a Claude session log that is an assistant message with a usage block: its message id and
-- its counts, an absent one read as 0.
pub record Message : Type 0 where
  pub id : Option String
  pub input_tokens : ℕ
  pub cache_creation_input_tokens : ℕ
  pub cache_read_input_tokens : ℕ
  pub output_tokens : ℕ

abbrev pub req_of : Message → Req
req_of m = record {
  fresh = pos m.input_tokens;
  cache_creation = m.cache_creation_input_tokens;
  cache_read = m.cache_read_input_tokens;
  out = m.output_tokens;
}

-- The loop of `claude_series`; `seen` holds the ids so far, and an absent id is never seen.
unfoldable pub claude_loop : List String → List Message → List Req
claude_loop seen [] = []
claude_loop seen (m ∷ log) = elim m.id [
  | none ↦ req_of m ∷ claude_loop seen log
  | some id ↦
      let again = claude_loop seen log in
      let first = req_of m ∷ claude_loop (id ∷ seen) log in
      if contains id seen then again else first
]

-- `out or None`
abbrev pub non_empty : List Req → Option (List Req)
non_empty [] = none
non_empty (r ∷ series) = some (r ∷ series)

unfoldable pub claude_series : List Message → Option (List Req)
unfolding claude_loop
claude_series log = non_empty (claude_loop [] log)

-- The counts of one usage block in a codex rollout.
pub record CodexUsage : Type 0 where
  pub input_tokens : ℕ
  pub cached_input_tokens : ℕ
  pub output_tokens : ℕ
  pub reasoning_output_tokens : ℕ
  pub total_tokens : ℕ

-- `total == prev_total` on the two blocks.
abbrev pub same_usage : CodexUsage → CodexUsage → Bool
same_usage a b =
    a.input_tokens == b.input_tokens
    && a.cached_input_tokens == b.cached_input_tokens
    && a.output_tokens == b.output_tokens
    && a.reasoning_output_tokens == b.reasoning_output_tokens
    && a.total_tokens == b.total_tokens

-- A `token_count` event that has both blocks: the last request's, and the running total.
pub record TokenEvent : Type 0 where
  pub last : CodexUsage
  pub total : CodexUsage

abbrev pub codex_req : CodexUsage → Req
codex_req last = record {
  fresh = pos last.input_tokens -ℤ pos last.cached_input_tokens;
  cache_creation = 0;
  cache_read = last.cached_input_tokens;
  out = last.output_tokens;
}

abbrev pub re_emitted : Option CodexUsage → CodexUsage → Bool
re_emitted none total = false
re_emitted (some prev) total = same_usage total prev

-- The loop of `codex_series`, on the running total before it.
unfoldable pub codex_loop : Option CodexUsage → List TokenEvent → List Req
codex_loop prev [] = []
codex_loop prev (e ∷ events) =
    let again = codex_loop prev events in
    let next = codex_req e.last ∷ codex_loop (some e.total) events in
    if re_emitted prev e.total then again else next

unfoldable pub codex_series : List TokenEvent → Option (List Req)
unfolding codex_loop
codex_series events = non_empty (codex_loop none events)

abbrev pub last_event : TokenEvent → List TokenEvent → TokenEvent
last_event e [] = e
last_event e (f ∷ events) = last_event f events

unfoldable pub codex_reported_total : List TokenEvent → Option ℕ
codex_reported_total [] = none
codex_reported_total (e ∷ events) = some (last_event e events).total.input_tokens
