-- ===== src/TokenUnits/Tests.antt =====
-- token_units.py: a codex log that repeats an event, a Claude log that repeats a message, and a ledger.
use model_eval.Prelude.{ℕ, refl, inl, inr, none, some, String, List, [], ◌∷◌, string_key, err, ◌≡◌}
use model_eval.Prelude.Int.{pos}
use model_eval.TokenUnits.{
  Req, CodexUsage, TokenEvent, codex_req, codex_series, codex_loop, codex_reported_total, figures,
  Message, session_log_kind, undeclared_session,
}
use model_eval.TokenUnits.Codex.{codex_figures-reported, IsRunning}

abbrev usage : ℕ → CodexUsage
usage n = record {
  input_tokens = n;
  cached_input_tokens = 10;
  output_tokens = 5;
  reasoning_output_tokens = 0;
  total_tokens = n;
}

abbrev events : List TokenEvent
events =
    record { last = usage 100; total = usage 100 }
    ∷ record { last = usage 100; total = usage 100 }
    ∷ record { last = usage 150; total = usage 250 }
    ∷ []

abbrev series : List Req
series = codex_req (usage 100) ∷ codex_req (usage 150) ∷ []

running : IsRunning none events
running = (inr refl, (inl refl, (inr refl, tt)))

read_series : codex_series events ≡ some series
unfolding codex_series codex_loop
read_series = refl

read_total : codex_reported_total events ≡ some 250
unfolding codex_reported_total
read_total = refl

codex_figures-reported_example : (figures series).session_total ≡ pos 250
codex_figures-reported_example =
    codex_figures-reported events series 250 running read_series read_total

abbrev message : String → Message
message id = record {
  id = some id;
  input_tokens = 3;
  cache_creation_input_tokens = 0;
  cache_read_input_tokens = 0;
  output_tokens = 2;
}

-- A family that no table declares is refused.
unknown_family : session_log_kind "gemini" ≡ err (undeclared_session "gemini")
unfolding session_log_kind
unknown_family = refl
