-- ===== src/Broker/Budget.antt =====
-- broker.py: the budget of a run. However the requests are ordered and however their grades end, at most
-- `k` grades are run, every request is counted, and the run ends or is marked at exhaustion.
use model_eval.Prelude.{
  ℕ, suc, ◌+◌, ◌-◌, ◌≤◌, ◌<◌, min, ◌≡◌, ◌↔◌, refl, true, not, ◌||◌, none, some, List, [], ◌∷◌, ◌++◌,
  arith, ltb, ap, subst, sym, ◌∙◌, Bool-cases, length, length-append, if◌then◌else◌, is_some, ok,
  inl, inr,
}
use model_eval.Prelude.Int.{ℤ, pos}
use model_eval.Broker.{
  Grade, Reply, Broker, Request, Event, Verdict, verdict_of, parse_counts, started, attach, handle,
  step, serve, resolve_k, attaching, asked, graded, timed_out, raised,
}

-- The requests among the events.
abbrev pub asks : List Event → ℕ
asks [] = 0
asks (attaching ∷ events) = asks events
asks (asked r ∷ events) = suc (asks events)

pub record IsSound (k : ℕ) (b : Broker) : Type 0 where
  pub cap : b.k ≡ k
  pub graded_within : b.grades ≡ min b.requests k
  pub exhausted_past : b.exhausted ≡ ltb k b.requests
  pub ends : (not b.exhausted || b.ended || is_some b.failed) ≡ true

handle-IsSound : (k : ℕ) (r : Request) (b : Broker) → IsSound k b → IsSound k (handle r b)
unfolding handle
handle-IsSound k r b h = ground arith

step-IsSound : (k : ℕ) (e : Event) (b : Broker) → IsSound k b → IsSound k (step e b)
unfolding step
step-IsSound k attaching b h = unfold attach in ground arith
step-IsSound k (asked r) b h = handle-IsSound k r b h

serve-IsSound :
    (k : ℕ) (events : List Event) (b : Broker) → IsSound k b → IsSound k (serve events b)
unfolding serve
serve-IsSound k [] b h = h
serve-IsSound k (e ∷ events) b h = serve-IsSound k events (step e b) (step-IsSound k e b h)

started-IsSound : (k : ℕ) → IsSound k (started k)
started-IsSound k = ground arith

requests-handle : (r : Request) (b : Broker) → (handle r b).requests ≡ suc b.requests
unfolding handle
requests-handle r b = ground arith

requests-serve :
    (events : List Event) (b : Broker) → (serve events b).requests ≡ b.requests + asks events
unfolding serve step
requests-serve [] b = omega arith
requests-serve (attaching ∷ events) b =
    unfold attach in omega (arith, requests-serve events (attach b))
requests-serve (asked r ∷ events) b =
    omega (arith, requests-serve events (handle r b), requests-handle r b)

-- Whatever reaches a broker that is started with `k`, and however each grade ends: every request is
-- counted, the number of grades that are run is the smaller of the number of requests and `k`, the
-- broker is exhausted exactly when more than `k` have come, and an exhausted broker has ended the
-- run or holds a fault.
pub serve-budget :
    (k : ℕ) (events : List Event)
    → let b = serve events (started k) in
      (b.requests ≡ asks events)
      × (b.grades ≡ min (asks events) k)
      × (b.exhausted ≡ ltb k (asks events))
      × ((not b.exhausted || b.ended || is_some b.failed) ≡ true)
serve-budget k events =
    let h = serve-IsSound k events (started k) (started-IsSound k) in
    let e : (serve events (started k)).requests ≡ asks events =
      omega (arith, requests-serve events (started k)) in
    (e, omega (arith, h.graded_within), h.exhausted_past ∙ ap (ltb k) e, h.ends)

-- The number that a reply carries.
abbrev pub request_of : Reply → ℕ
request_of (Reply.feedback request k remaining verdict exit counts) = request
request_of (Reply.cap_exhausted request k) = request
request_of (Reply.broker_failed request k) = request

-- What a reply to request `n` of a budget of `k` may be.
abbrev pub IsReplyTo : ℕ → ℕ → Reply → Type 0
IsReplyTo k n (Reply.feedback request k' remaining verdict exit counts) =
    (request ≡ n) × (k' ≡ k) × (n + remaining ≡ k)
IsReplyTo k n (Reply.cap_exhausted request k') = (request ≡ n) × (k' ≡ k) × (k < n)
IsReplyTo k n (Reply.broker_failed request k') = (request ≡ n) × (k' ≡ k) × (n ≤ k)

-- The replies to the requests from `n` on.
abbrev pub AreReplies : ℕ → ℕ → List Reply → Type 0
AreReplies k n [] = Unit
AreReplies k n (reply ∷ sent) = IsReplyTo k n reply × AreReplies k (suc n) sent

AreReplies-append :
    (k n m : ℕ) (sent : List Reply) (reply : Reply)
    → AreReplies k n sent
    → n + length sent ≡ m
    → IsReplyTo k m reply
    → AreReplies k n (sent ++ reply ∷ [])
AreReplies-append k n m [] reply h e r =
    (subst (λ (j : ℕ). IsReplyTo k j reply) (omega (arith, sym e)) r, tt)
AreReplies-append k n m (s ∷ sent) reply h e r =
    (h.0, AreReplies-append k (suc n) m sent reply h.1 (omega arith) r)

-- The reply of `_handle`.
answer : Request → ℕ → ℕ → Reply
answer r n k = if ltb k n then Reply.cap_exhausted n k else elim r.grade [
  | graded rc found ↦ Reply.feedback n k (k - n) (verdict_of rc) (some rc) (parse_counts found)
  | timed_out ↦ Reply.feedback n k (k - n) Verdict.timeout none []
  | raised error ↦ Reply.broker_failed n k
]

handle-sends :
    (r : Request) (b : Broker)
    → ((handle r b).sent ≡ b.sent ++ answer r (suc b.requests) b.k ∷ []) × ((handle r b).k ≡ b.k)
unfolding handle answer
handle-sends r b = ground arith

answer-IsReplyTo : (r : Request) (n k : ℕ) → IsReplyTo k n (answer r n k)
unfolding answer
answer-IsReplyTo r n k = elim (Bool-cases (ltb k n)) [
  | inl past ↦ rw past (ground arith)
  | inr within ↦ rw within (graded_reply r.grade (ground arith))
]
  where
    graded_reply :
        (g : Grade)
        → n ≤ k
        → IsReplyTo k n (elim g as (λ _. Reply) [
          | graded rc found ↦
              Reply.feedback n k (k - n) (verdict_of rc) (some rc) (parse_counts found)
          | timed_out ↦ Reply.feedback n k (k - n) Verdict.timeout none []
          | raised error ↦ Reply.broker_failed n k
        ])
    graded_reply (graded rc found) le = (refl, refl, omega arith)
    graded_reply timed_out le = (refl, refl, omega arith)
    graded_reply (raised error) le = (refl, refl, le)

pub record IsNumbered (k : ℕ) (b : Broker) : Type 0 where
  pub cap : b.k ≡ k
  pub replies : AreReplies k 1 b.sent
  pub answered : length b.sent ≡ b.requests

handle-IsNumbered : (k : ℕ) (r : Request) (b : Broker) → IsNumbered k b → IsNumbered k (handle r b)
handle-IsNumbered k r b h =
    let (sent, cap) = handle-sends r b in
    let reply = answer r (suc b.requests) b.k in
    record {
      cap = cap ∙ h.cap;
      replies = subst (AreReplies k 1) (sym sent) (
          AreReplies-append k 1 (suc b.requests) b.sent reply h.replies (omega (arith, h.answered))
            (subst (λ (j : ℕ). IsReplyTo j (suc b.requests) reply) h.cap
              (answer-IsReplyTo r (suc b.requests) b.k)));
      answered = omega (
        arith,
        ap length sent,
        length-append b.sent (reply ∷ []),
        h.answered,
        requests-handle r b,
      );
    }

serve-IsNumbered :
    (k : ℕ) (events : List Event) (b : Broker) → IsNumbered k b → IsNumbered k (serve events b)
unfolding serve step
serve-IsNumbered k [] b h = h
serve-IsNumbered k (attaching ∷ events) b h =
    serve-IsNumbered k events (attach b) (unfold attach in ground arith)
serve-IsNumbered k (asked r ∷ events) b h =
    serve-IsNumbered k events (handle r b) (handle-IsNumbered k r b h)

-- Every request gets one reply, and the replies carry the numbers 1, 2, … in order and the budget
-- `k`: a feedback says what remains of `k`, a failure of the broker is the reply to the `k`-th
-- request at the latest, and a refusal only to one behind it.
pub serve-replies :
    (k : ℕ) (events : List Event)
    → let b = serve events (started k) in (length b.sent ≡ asks events) × AreReplies k 1 b.sent
serve-replies k events =
    let h =
      serve-IsNumbered k events (started k)
        (record { cap = refl; replies = tt; answered = refl }) in
    (h.answered ∙ requests-serve events (started k) ∙ omega arith, h.replies)

-- A configured budget is accepted as a number exactly when it is that number and lies from 1 to 20.
pub resolve_k-eq-ok :
    (v : ℤ) (k : ℕ) → (resolve_k (some v) ≡ ok k) ↔ ((v ≡ pos k) × (1 ≤ k) × (k ≤ 20))
unfolding resolve_k
resolve_k-eq-ok v k = ground arith
