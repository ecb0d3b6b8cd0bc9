-- ===== src/Broker.antt =====
-- runner/broker.py: the acceptance-feedback broker as a state machine over the requests that reach its
-- socket. One request is one call of `_handle`, in the order in which the lock admits them. What the
-- broker calls is an input of the request: the grade, whether a process to end is attached before the
-- wait for it runs out, and whether ending it raises. Sockets and threads are not modelled; a reply
-- is recorded as sent, since `_send` ignores a connection that is gone.
pub mod Counts
pub mod Budget
mod Tests
use model_eval.Prelude.{
  ℕ, suc, ◌+◌, ◌-◌, String, Bool, true, false, ◌||◌, Option, none, some, List, [], ◌∷◌, ◌++◌,
  string_key, ◌=?◌, contains, ltb, ◌==◌, if◌then◌else◌, Tally, Result, ok, err,
}
use model_eval.Prelude.Int.{ℤ, pos, negsuc, ltb_ℤ}

abbrev pub k_default : ℕ
k_default = 10

abbrev pub k_ceiling : ℕ
k_ceiling = 20

pub data KError : Type 0 where
  below_one above_ceiling : ℤ → KError

-- `int(value)` is taken at an integer.
unfoldable pub resolve_k : Option ℤ → Result KError ℕ
resolve_k none = ok k_default
resolve_k (some (negsuc n)) = err (below_one (negsuc n))
resolve_k (some (pos k)) =
    if ltb k 1
    then err (below_one (pos k))
    else if ltb k_ceiling k
    then err (above_ceiling (pos k))
    else ok k

abbrev pub count_keys : List String
count_keys = "passed" ∷ "failed" ∷ "errors" ∷ "skipped" ∷ "xfailed" ∷ "xpassed" ∷ "todo" ∷ []

-- `totals[key] = totals.get(key, 0) + n`
abbrev pub add_count : String → ℕ → Tally String → Tally String
add_count key n [] = (key, n) ∷ []
add_count key n ((j, m) ∷ t) = if key =? j then (j, m + n) ∷ t else (j, m) ∷ add_count key n t

abbrev pub outcome_key : String → String
outcome_key word = if word =? "error" then "errors" else word

-- The sums, from the matches of the pattern in lower case.
unfoldable pub sum_matches : List (ℕ × String) → Tally String → Tally String
sum_matches [] totals = totals
sum_matches ((n, word) ∷ found) totals = sum_matches found (add_count (outcome_key word) n totals)

abbrev pub count_at : String → Tally String → Option ℕ
count_at key [] = none
count_at key ((j, n) ∷ t) = if key =? j then some n else count_at key t

-- `{k: totals[k] for k in keys if k in totals}`
abbrev pub in_key_order : List String → Tally String → Tally String
in_key_order [] totals = []
in_key_order (key ∷ keys) totals = elim (count_at key totals) [
  | none ↦ in_key_order keys totals
  | some n ↦ (key, n) ∷ in_key_order keys totals
]

-- `parse_counts`, from what the pattern's `findall` gives.
unfoldable pub parse_counts : List (ℕ × String) → Tally String
unfolding sum_matches
parse_counts found = in_key_order count_keys (sum_matches found [])

-- How one grade ended: an exit status with the matches in its output, `TimeoutExpired`, or another
-- exception, by its class.
pub data Grade : Type 0 where
  graded : ℤ → List (ℕ × String) → Grade
  timed_out : Grade
  raised : String → Grade

pub data Verdict : Type 0 where
  pass fail timeout : Verdict

pub data Reply : Type 0 where
  feedback : (request k remaining : ℕ) → Verdict → Option ℤ → Tally String → Reply
  cap_exhausted broker_failed : (request k : ℕ) → Reply

pub data Fault : Type 0 where
  grade_error terminate_error : String → Fault
  terminate_unattached : Fault

pub record Broker : Type 0 where
  pub k : ℕ
  pub requests : ℕ
  pub exhausted : Bool
  pub failed : Option Fault
  pub attached : Bool
  -- whether `_terminate` has been called and has returned
  pub ended : Bool
  -- how often `_grade` has been called
  pub grades : ℕ
  pub sent : List Reply

abbrev pub started : ℕ → Broker
started k = record {
  k = k;
  requests = 0;
  exhausted = false;
  failed = none;
  attached = false;
  ended = false;
  grades = 0;
  sent = [];
}

-- What a request meets: the grade, whether an attach comes in time, and what `_terminate` raises.
pub record Request : Type 0 where
  pub grade : Grade
  pub attaches : Bool
  pub terminate_raises : Option String

unfoldable pub attach : Broker → Broker
attach b = record b { attached = true }

-- `self.failed or fault`
abbrev pub keep_fault : Option Fault → Fault → Option Fault
keep_fault none fault = some fault
keep_fault (some first) fault = some first

unfoldable pub end_run : Request → Broker → Broker
end_run r b =
    let b' = record b { attached = b.attached || r.attaches } in
    if b.attached || r.attaches
    then elim r.terminate_raises [
      | none ↦ record b' { ended = true }
      | some error ↦ record b' { failed = keep_fault b.failed (Fault.terminate_error error) }
    ]
    else record b' { failed = keep_fault b.failed Fault.terminate_unattached }

abbrev pub send : Reply → Broker → Broker
send reply b = record b { sent = b.sent ++ reply ∷ [] }

abbrev pub verdict_of : ℤ → Verdict
verdict_of (pos n) = if n == 0 then Verdict.pass else Verdict.fail
verdict_of (negsuc n) = Verdict.fail

-- `_handle` behind the count, at a request within the cap.
unfoldable pub reply_to : Request → ℕ → Broker → Broker
unfolding end_run parse_counts
reply_to r n b = elim r.grade [
  | graded rc found ↦
      send (Reply.feedback n b.k (b.k - n) (verdict_of rc) (some rc) (parse_counts found)) b
  | timed_out ↦ send (Reply.feedback n b.k (b.k - n) Verdict.timeout none []) b
  | raised error ↦
      end_run r
        (send (Reply.broker_failed n b.k) (record b { failed = some (Fault.grade_error error) }))
]

unfoldable pub handle : Request → Broker → Broker
unfolding end_run reply_to
handle r b =
    let n = suc b.requests in
    if ltb b.k n
    then end_run r (send (Reply.cap_exhausted n b.k) (record b { requests = n; exhausted = true }))
    else reply_to r n (record b { requests = n; grades = suc b.grades })

-- What reaches the broker: the attach, or a request.
pub data Event : Type 0 where
  attaching : Event
  asked : Request → Event

unfoldable pub step : Event → Broker → Broker
unfolding attach handle
step attaching b = attach b
step (asked r) b = handle r b

unfoldable pub serve : List Event → Broker → Broker
unfolding step
serve [] b = b
serve (e ∷ events) b = serve events (step e b)
