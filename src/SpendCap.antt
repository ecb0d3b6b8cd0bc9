-- ===== src/SpendCap.antt =====
-- runner/spend_cap.py: the fail-closed spend cap. Dollar amounts are integers in the units of the usage
-- ledger; a cap and a spend may be negative, as the code does not forbid it.
pub mod Coverage
pub mod Report
pub mod Authority
mod Tests
use model_eval.Prelude.{
  ℕ, String, Bool, true, false, not, Option, none, some, List, [], ◌∷◌, map, string_key, ◌==◌,
  contains, lookup, keep, if◌then◌else◌, Result, ok, err, ◌>>=◌, ◌>>◌, raise_if,
}
use model_eval.Prelude.Int.{ℤ, pos, ◌-ℤ◌, ltb_ℤ}
use model_eval.Registry.{RegistryError, Spec, resolve_model}
use model_eval.UsageLedger.{usd_estimate, scaffold_floor_tokens}
use model_eval.UsageLedger.Parse.{UsageDetail}

abbrev pub probe_tokens_in : ℕ
probe_tokens_in = 1000000

abbrev pub probe_tokens_out : ℕ
probe_tokens_out = 1000000

-- Which of its four sentences `metering_capability` gives as the reason.
pub data Reason : Type 0 where
  no_price : Reason
  probe_prices_at_nothing : ℕ → Reason
  no_floor : Reason
  metered : ℕ → ℕ → Reason

pub record Metering : Type 0 where
  pub model_id : String
  pub family : String
  pub meterable : Bool
  pub reason : Reason
  pub probe_usd : Option ℕ
  pub floor_tokens : Option ℕ
  pub floor_usd : Option ℕ

pub record Authorization : Type 0 where
  pub model_id : String
  pub family : String
  pub cap_usd : ℤ
  pub spent_usd : ℤ
  pub floor_usd : ℕ
  pub remaining_usd : ℤ

-- `SpendRefused` with its reason, or what the registry raised.
pub data SpendError : Type 0 where
  unresolved : RegistryError → SpendError
  unmeterable : String → String → Reason → SpendError
  no_cap_declared : String → String → SpendError
  under_floor : String → String → ℤ → ℕ → SpendError

abbrev unmetered_as : String → String → Reason → Option ℕ → Option ℕ → Metering
unmetered_as model_id family reason probe floor = record {
  model_id = model_id;
  family = family;
  meterable = false;
  reason = reason;
  probe_usd = probe;
  floor_tokens = floor;
  floor_usd = none;
}

-- The last branch: the price of the floor. `usd_estimate` has answered for this id above.
abbrev with_floor : String → String → ℕ → ℕ → Option ℕ → Metering
with_floor model_id family probe floor floor_usd = record {
  model_id = model_id;
  family = family;
  meterable = true;
  reason = elim floor_usd [ none ↦ Reason.no_price | some usd ↦ Reason.metered floor usd ];
  probe_usd = some probe;
  floor_tokens = some floor;
  floor_usd = floor_usd;
}

-- The branches, on the two observations.
unfoldable pub observe : String → String → Option ℕ → Option ℕ → Metering
observe model_id family none floor = unmetered_as model_id family Reason.no_price none floor
observe model_id family (some probe) none =
    if probe == 0
    then unmetered_as model_id family (Reason.probe_prices_at_nothing probe) (some probe) none
    else unmetered_as model_id family Reason.no_floor (some probe) none
observe model_id family (some probe) (some floor) =
    if probe == 0
    then unmetered_as model_id family (Reason.probe_prices_at_nothing probe) (some probe)
        (some floor)
    else with_floor model_id family probe floor (usd_estimate model_id floor 0 0 0)

unfoldable pub metering_capability : String → Result RegistryError Metering
unfolding observe
metering_capability model = do
  r ← resolve_model model
  ok (
      observe r.0 r.1.family (usd_estimate r.0 probe_tokens_in probe_tokens_out 0 0)
        (lookup r.0 scaffold_floor_tokens))

-- `except` on the way into the cap's own error type.
abbrev pub from_registry {ℓ} : {A : Type ℓ} → Result RegistryError A → Result SpendError A
from_registry (ok a) = ok a
from_registry (err e) = err (SpendError.unresolved e)

-- The comparison of the remainder with the floor.
abbrev pub grant : Metering → ℤ → ℤ → Option ℕ → Result SpendError Authorization
grant m cap spent none = err (SpendError.unmeterable m.model_id m.family m.reason)
grant m cap spent (some floor) =
    if ltb_ℤ (cap -ℤ spent) (pos floor)
    then err (SpendError.under_floor m.model_id m.family (cap -ℤ spent) floor)
    else ok (record {
      model_id = m.model_id;
      family = m.family;
      cap_usd = cap;
      spent_usd = spent;
      floor_usd = floor;
      remaining_usd = cap -ℤ spent;
    })

-- `authorize`, from the metering verdict on.
abbrev pub authorize_metered : Metering → Option ℤ → ℤ → Result SpendError Authorization
authorize_metered m cap spent =
    if not m.meterable
    then err (SpendError.unmeterable m.model_id m.family m.reason)
    else elim cap [
      | none ↦ err (SpendError.no_cap_declared m.model_id m.family)
      | some cap_usd ↦ grant m cap_usd spent m.floor_usd
    ]

unfoldable pub authorize : String → Option ℤ → ℤ → Result SpendError Authorization
authorize model cap spent = do
  m ← from_registry (metering_capability model)
  authorize_metered m cap spent

-- The price is gone.
pub data CostError : Type 0 where
  no_longer_priced : String → CostError

unfoldable pub cost_of : String → UsageDetail → Result CostError ℕ
cost_of model_id u =
    elim (usd_estimate model_id u.tokens_in u.tokens_out u.cache_read_tokens
      u.cache_creation_tokens) [ none ↦ err (no_longer_priced model_id) | some usd ↦ ok usd ]
