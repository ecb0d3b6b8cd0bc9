-- ===== src/Executor/Money.antt =====
-- executor.py, `execute` with spend_cap.py: the cap over a whole report.
use model_eval.Prelude.{
  ℕ, ◌+◌, ◌≡◌, ◌≢◌, refl, sym, subst, ◌∙◌, Bool, true, false, not, ◌||◌, Option, none, some, String,
  List, [], ◌∷◌, arith, string_key, lookup, is_some, all_of, if◌then◌else◌, ok, err,
}
use model_eval.Prelude.Int.{ℤ, pos, ◌+ℤ◌, ◌≤ℤ◌}
use model_eval.Registry.{Spec, models, resolve_model, is_metered}
use model_eval.Registry.Resolve.{resolved-passes}
use model_eval.UsageLedger.Entry.{UsageRow}
use model_eval.SpendCap.{Metering, Authorization, SpendError, metering_capability, authorize}
use model_eval.SpendCap.Authority.{authorize-covers}
use model_eval.SpendCap.Coverage.{meterable-eq-metered}
use model_eval.Executor.{
  World, RunRequest, RunReport, TaskOutcome, TaskStatus, execute, invocation_paths, ran, refused,
  unsupported,
}
use model_eval.Executor.Account.{Settles, AreSettled}
use model_eval.Executor.Loop.{execute-IsTrace}

-- Whether an outcome, with `spent` spent before it, is a run that the cap had room for: the floor of one
-- run of the model fits under the declared cap on top of what is spent.
abbrev pub IsFunded : RunRequest → ℕ → TaskOutcome → Type 0
IsFunded request spent o = elim o.status [
  | ran ↦
      (m : Metering) × (cap : ℤ) × (floor : ℕ) × (metering_capability request.model ≡ ok m)
      × (m.floor_usd ≡ some floor)
      × (request.cap_usd ≡ some cap)
      × (pos spent +ℤ pos floor ≤ℤ cap)
  | refused ↦ Unit
  | unsupported ↦ Unit
]

abbrev pub AreFunded : RunRequest → ℕ → List TaskOutcome → Type 0
AreFunded request spent [] = Unit
AreFunded request spent (o ∷ os) = IsFunded request spent o × AreFunded request (spent + o.usd) os

funded :
    (request : RunRequest) (family : String) (spent : ℕ) (o : TaskOutcome) (status : TaskStatus)
    → o.status ≡ status
    → Settles request family spent o
    → IsFunded request spent o
funded request family spent o ran e h =
    let (a, at) : (a : Authorization) × (authorize request.model request.cap_usd (pos spent)
          ≡ ok a) =
      rw e at h in
    let (cap, _, _, room, (m, em, on, floor)) =
      authorize-covers request.model request.cap_usd (pos spent) a at in
    rw e (m, a.cap_usd, a.floor_usd, em, floor, cap, room)
funded request family spent o refused e h = rw e tt
funded request family spent o unsupported e h = rw e tt

all_funded :
    (request : RunRequest) (family : String) (spent : ℕ) (os : List TaskOutcome)
    → AreSettled request family spent os
    → AreFunded request spent os
all_funded request family spent [] h = tt
all_funded request family spent (o ∷ os) h = (
  funded request family spent o o.status refl h.0,
  all_funded request family (spent + o.usd) os h.1,
)

abbrev pub is_refused : TaskOutcome → Bool
is_refused o = elim o.status [ ran ↦ false | refused ↦ true | unsupported ↦ false ]

-- Behind a refusal there are only refusals.
abbrev pub stops_once : List TaskOutcome → Bool
stops_once [] = true
stops_once (o ∷ os) = if is_refused o then all_of is_refused os else stops_once os

-- What was refused at a spend is refused at it again, and costs nothing.
refused_one :
    (request : RunRequest) (family : String) (spent : ℕ) (o : TaskOutcome) (status : TaskStatus)
    (e : SpendError)
    → o.status ≡ status
    → Settles request family spent o
    → authorize request.model request.cap_usd (pos spent) ≡ err e
    → (is_refused o ≡ true) × (o.usd ≡ 0)
refused_one request family spent o ran e k h at =
    let (a, yes_it) : (a : Authorization) × (authorize request.model request.cap_usd (pos spent)
          ≡ ok a) =
      rw k at h in
    absurd (cc (yes_it, at))
refused_one request family spent o refused e k h at =
    let (free, _) : (o.usd ≡ 0)
        × ((x : SpendError) × (authorize request.model request.cap_usd (pos spent) ≡ err x)) =
      rw k at h in
    (rw k refl, free)
refused_one request family spent o unsupported e k h at =
    let ((a, yes_it), _) : ((a : Authorization) × (authorize request.model request.cap_usd
              (pos spent)
            ≡ ok a))
        × (lookup family invocation_paths ≡ none) =
      rw k at h in
    absurd (cc (yes_it, at))

refused_again :
    (request : RunRequest) (family : String) (spent : ℕ) (e : SpendError) (os : List TaskOutcome)
    → authorize request.model request.cap_usd (pos spent) ≡ err e
    → AreSettled request family spent os
    → all_of is_refused os ≡ true
refused_again request family spent e [] at h = refl
refused_again request family spent e (o ∷ os) at h =
    let (p, free) = refused_one request family spent o o.status e refl h.0 at in
    let same : spent + o.usd ≡ spent = omega (arith, free) in
    let rest =
      refused_again request family spent e os at
        (subst (λ (n : ℕ). AreSettled request family n os) same h.1) in
    cc (p, rest)

stops_at :
    (request : RunRequest) (family : String) (spent : ℕ) (o : TaskOutcome) (os : List TaskOutcome)
    (status : TaskStatus)
    → o.status ≡ status
    → Settles request family spent o
    → AreSettled request family (spent + o.usd) os
    → stops_once os ≡ true
    → stops_once (o ∷ os) ≡ true
stops_at request family spent o os ran k h rest before = rw k before
stops_at request family spent o os refused k h rest before =
    let (free, (x, at)) : (o.usd ≡ 0)
        × ((x : SpendError) × (authorize request.model request.cap_usd (pos spent) ≡ err x)) =
      rw k at h in
    let same : spent + o.usd ≡ spent = omega (arith, free) in
    rw k (
      refused_again request family spent x os at
        (subst (λ (n : ℕ). AreSettled request family n os) same rest))
stops_at request family spent o os unsupported k h rest before = rw k before

stops :
    (request : RunRequest) (family : String) (spent : ℕ) (os : List TaskOutcome)
    → AreSettled request family spent os
    → stops_once os ≡ true
stops request family spent [] h = refl
stops request family spent (o ∷ os) h =
    stops_at request family spent o os o.status refl h.0 h.1
      (stops request family (spent + o.usd) os h.1)

-- A metered model of the registry is of a family that has an invocation path.
has_path : String → Spec → Bool
has_path id spec = not spec.metered || is_some (lookup spec.family invocation_paths)

every_metered_has_path : all_of (λ (e : String × Spec). has_path e.0 e.1) models ≡ true
unfolding has_path
every_metered_has_path = refl

path_of_metered :
    (model : String) (r : String × Spec) (m : Metering)
    → resolve_model model ≡ ok r
    → metering_capability model ≡ ok m
    → m.meterable ≡ true
    → lookup r.1.family invocation_paths ≢ none
unfolding has_path is_metered
path_of_metered model r m h e on gone =
    let tested : has_path r.0 r.1 ≡ true =
      resolved-passes has_path model r every_metered_has_path h in
    let declared : is_metered model ≡ ok m.meterable = meterable-eq-metered model m e in
    ground (arith, tested, declared)

abbrev pub is_supported : TaskOutcome → Bool
is_supported o = elim o.status [ ran ↦ true | refused ↦ true | unsupported ↦ false ]

supported :
    (request : RunRequest) (r : String × Spec) (spent : ℕ) (o : TaskOutcome) (status : TaskStatus)
    → resolve_model request.model ≡ ok r
    → o.status ≡ status
    → Settles request r.1.family spent o
    → is_supported o ≡ true
supported request r spent o ran resolved k h = rw k refl
supported request r spent o refused resolved k h = rw k refl
supported request r spent o unsupported resolved k h =
    let ((a, at), gone) : ((a : Authorization) × (authorize request.model request.cap_usd
              (pos spent)
            ≡ ok a))
        × (lookup r.1.family invocation_paths ≡ none) =
      rw k at h in
    let (_, _, _, _, (m, em, on, _)) =
      authorize-covers request.model request.cap_usd (pos spent) a at in
    absurd (path_of_metered request.model r m resolved em on gone)

all_supported :
    (request : RunRequest) (r : String × Spec) (spent : ℕ) (os : List TaskOutcome)
    → resolve_model request.model ≡ ok r
    → AreSettled request r.1.family spent os
    → all_of is_supported os ≡ true
all_supported request r spent [] resolved h = refl
all_supported request r spent (o ∷ os) resolved h = cc (
  supported request r spent o o.status resolved refl h.0,
  all_supported request r (spent + o.usd) os resolved h.1,
)

module _ {Text : Type 0} (w : World Text) where
  -- In a report that `execute` returns every run had room under the declared cap for the floor of
  -- one run of the model, on top of what the outcomes before it had spent; behind the first refusal
  -- every task is refused; and no task is reported as unsupported.
  pub execute-capped :
      (request : RunRequest) (disclosed : Option String) (ledger : List UsageRow)
      (report : RunReport)
      → (execute w request disclosed ledger).report ≡ ok report
      → AreFunded request 0 report.outcomes
        × (stops_once report.outcomes ≡ true)
        × (all_of is_supported report.outcomes ≡ true)
  execute-capped request disclosed ledger report h =
      let (r, q, u, t, el, eo, es, ew) = execute-IsTrace w request disclosed ledger report h in
      let outcomes : t.os ≡ report.outcomes = sym (eo ∙ t.outcomes) in
      let settled = subst (AreSettled request r.1.family 0) outcomes t.settled in
      (
        all_funded request r.1.family 0 report.outcomes settled,
        stops request r.1.family 0 report.outcomes settled,
        all_supported request r 0 report.outcomes q settled,
      )
