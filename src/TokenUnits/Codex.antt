-- ===== src/TokenUnits/Codex.antt =====
-- token_units.py: the two series count each request once, and the codex figure is the running total that
-- codex reports.
use model_eval.Prelude.{
  ℕ, ◌+◌, ◌≡◌, refl, ap, subst, sym, ◌∙◌, ◌⊎◌, Bool, true, false, Option, none, some, List, [], ◌∷◌,
  ◌++◌, map, arith, String, string_key, contains, if◌then◌else◌, inl, inr, Bool-cases, Option-cases,
}
use model_eval.Prelude.Int.{ℤ, pos, ◌+ℤ◌, int_laws}
use model_eval.TokenUnits.{
  Req, context, sum_ℤ, figures, Message, claude_loop, CodexUsage, TokenEvent, codex_req, codex_loop,
  codex_series, codex_reported_total, re_emitted, non_empty, last_event,
}

abbrev input_before : Option CodexUsage → ℕ
input_before none = 0
input_before (some total) = total.input_tokens

-- What codex documents of its log: an event repeats the running total before it, or its total is that
-- total with the last request's input added.
abbrev pub IsRunning : Option CodexUsage → List TokenEvent → Type 0
IsRunning prev [] = Unit
IsRunning prev (e ∷ events) =
    ((re_emitted prev e.total ≡ true)
      ⊎ (e.total.input_tokens ≡ input_before prev + e.last.input_tokens))
    × IsRunning (some e.total) events

abbrev final_input : ℕ → List TokenEvent → ℕ
final_input n [] = n
final_input n (e ∷ events) = final_input e.total.input_tokens events

context-codex : (u : CodexUsage) → context (codex_req u) ≡ pos u.input_tokens
context-codex u = omega int_laws

re_emitted-eq :
    (prev : Option CodexUsage) (total : CodexUsage)
    → re_emitted prev total ≡ true
    → prev ≡ some total
re_emitted-eq none total h = cc
re_emitted-eq (some prev) total h = ground arith

codex_loop-sum :
    (events : List TokenEvent) (prev : Option CodexUsage)
    → IsRunning prev events
    → sum_ℤ (map context (codex_loop prev events)) +ℤ pos (input_before prev)
      ≡ pos (final_input (input_before prev) events)
unfolding codex_loop
codex_loop-sum [] prev h = omega int_laws
codex_loop-sum (e ∷ events) prev h = elim (Bool-cases (re_emitted prev e.total)) [
  | inl again ↦
      let same = re_emitted-eq prev e.total again in
      rw again (
        subst
          (λ (p : Option CodexUsage).
            sum_ℤ (map context (codex_loop p events)) +ℤ pos (input_before p)
            ≡ pos (final_input e.total.input_tokens events))
          (sym same) (codex_loop-sum events (some e.total) h.1))
  | inr next ↦
      let grows : e.total.input_tokens ≡ input_before prev + e.last.input_tokens = ground arith in
      rw next
        (grind (int_laws, codex_loop-sum events (some e.total) h.1, context-codex e.last, grows))
]

final_input-last :
    (n : ℕ) (e : TokenEvent) (events : List TokenEvent)
    → final_input n (e ∷ events) ≡ (last_event e events).total.input_tokens
final_input-last n e [] = refl
final_input-last n e (f ∷ events) = final_input-last e.total.input_tokens f events

zero_right : (x : ℤ) (n : ℕ) → x +ℤ pos 0 ≡ pos n → x ≡ pos n
unfolding ◌+ℤ◌
zero_right x n h = ground arith

-- Where the totals of a rollout run as codex documents, the sum of the contexts of its requests is the
-- total that codex reports.
pub codex_figures-reported :
    (events : List TokenEvent) (series : List Req) (reported : ℕ)
    → IsRunning none events
    → codex_series events ≡ some series
    → codex_reported_total events ≡ some reported
    → (figures series).session_total ≡ pos reported
unfolding codex_series codex_reported_total figures
codex_figures-reported [] series reported h s r = cc
codex_figures-reported (e ∷ events) series reported h s r =
    let total = codex_loop-sum (e ∷ events) none h in
    let same : codex_loop none (e ∷ events) ≡ series =
      non_empty-eq (codex_loop none (e ∷ events)) s in
    subst (λ (l : List Req). sum_ℤ (map context l) ≡ pos reported) same
      (plus_zero (codex_loop none (e ∷ events)) total
        ∙ ap pos (final_input-last 0 e events ∙ some_eq r))
  where
    non_empty-eq : (l : List Req) → non_empty l ≡ some series → l ≡ series
    non_empty-eq [] q = cc
    non_empty-eq (x ∷ l) q = cc

    plus_zero :
        (l : List Req) {n : ℕ}
        → sum_ℤ (map context l) +ℤ pos 0 ≡ pos n
        → sum_ℤ (map context l) ≡ pos n
    plus_zero l {n} q = zero_right (sum_ℤ (map context l)) n q

    some_eq : {n : ℕ} → some n ≡ some reported → n ≡ reported
    some_eq q = cc

-- Whether a message's id is among the ids.
abbrev pub repeats : List String → Message → Bool
repeats seen m = elim m.id [ none ↦ false | some id ↦ contains id seen ]

-- The ids of a log, in front of those before it.
abbrev pub ids_after : List String → List Message → List String
ids_after seen [] = seen
ids_after seen (m ∷ log) = elim m.id [
  | none ↦ ids_after seen log
  | some id ↦ if contains id seen then ids_after seen log else ids_after (id ∷ seen) log
]

-- A line that repeats the id of a line above it adds nothing to the series, wherever it stands.
pub claude_loop-repeat :
    (before after : List Message) (m : Message) (seen : List String)
    → repeats (ids_after seen before) m ≡ true
    → claude_loop seen (before ++ m ∷ after) ≡ claude_loop seen (before ++ after)
unfolding claude_loop
claude_loop-repeat [] after m seen h = elim (Option-cases m.id) [
  | inl e ↦ ground arith
  | inr (id, e) ↦ ground arith
]
claude_loop-repeat (b ∷ before) after m seen h = elim (Option-cases b.id) [
  | inl e ↦ ground (arith, claude_loop-repeat before after m seen)
  | inr (id, e) ↦
      ground (
        arith,
        claude_loop-repeat before after m seen,
        claude_loop-repeat before after m (id ∷ seen),
      )
]
