-- ===== src/Broker/Tests.antt =====
-- broker.py: a budget of one, which a second request exhausts before a process is attached.
use model_eval.Prelude.{
  ◌≤◌, ◌≡◌, ◌↔◌, min, refl, true, false, not, ◌||◌, none, some, is_some, List, [], ◌∷◌, ltb, length,
  ok,
}
use model_eval.Prelude.Int.{pos}
use model_eval.Broker.{
  Grade, Request, Event, Fault, attaching, asked, started, step, attach, handle, reply_to, end_run,
  serve, resolve_k, parse_counts, sum_matches,
}
use model_eval.Broker.Budget.{asks, AreReplies, serve-budget, serve-replies, resolve_k-eq-ok}

abbrev asking : Request
asking = record {
  grade = Grade.graded (pos 1) ((2, "passed") ∷ (1, "failed") ∷ []);
  attaches = false;
  terminate_raises = none;
}

abbrev events : List Event
events = asked asking ∷ asked asking ∷ attaching ∷ []

unattached : (serve events (started 1)).failed ≡ some Fault.terminate_unattached
unfolding serve step attach handle reply_to end_run parse_counts sum_matches
unattached = refl

serve-budget_example :
    let b = serve events (started 1) in
    (b.requests ≡ 2)
    × (b.grades ≡ min 2 1)
    × (b.exhausted ≡ ltb 1 2)
    × ((not b.exhausted || b.ended || is_some b.failed) ≡ true)
serve-budget_example = serve-budget 1 events

serve-replies_example :
    let b = serve events (started 1) in (length b.sent ≡ asks events) × AreReplies 1 1 b.sent
serve-replies_example = serve-replies 1 events

resolve_k-eq-ok_example : (resolve_k (some (pos 7)) ≡ ok 7) ↔ ((pos 7 ≡ pos 7) × (1 ≤ 7) × (7 ≤ 20))
resolve_k-eq-ok_example = resolve_k-eq-ok (pos 7) 7
