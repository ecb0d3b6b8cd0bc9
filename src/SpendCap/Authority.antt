-- ===== src/SpendCap/Authority.antt =====
-- spend_cap.py, `authorize`: what a permission to spend guarantees.
use model_eval.Prelude.{
  ℕ, ◌≡◌, true, Option, none, some, String, arith, ok, Result-cases, Bool-cases, ap, inl, inr,
  string_key,
}
use model_eval.Prelude.Int.{ℤ, pos, ◌+ℤ◌, ◌-ℤ◌, ◌≤ℤ◌, -ℤ_parts, +ℤ_parts}
use model_eval.SpendCap.{
  Metering, Authorization, metering_capability, authorize, authorize_metered, grant,
}

grant-eq-ok :
    (m : Metering) (cap spent : ℤ) (floor : Option ℕ) (a : Authorization)
    → grant m cap spent floor ≡ ok a
    → (cap ≡ a.cap_usd)
      × (a.spent_usd ≡ spent)
      × (a.remaining_usd ≡ a.cap_usd -ℤ spent)
      × (spent +ℤ pos a.floor_usd ≤ℤ a.cap_usd)
      × (floor ≡ some a.floor_usd)
grant-eq-ok m cap spent none a h = cc
grant-eq-ok m cap spent (some f) a h = ground (arith, -ℤ_parts cap spent, +ℤ_parts spent (pos f))

authorize_metered-eq-ok :
    (m : Metering) (cap : Option ℤ) (spent : ℤ) (a : Authorization)
    → authorize_metered m cap spent ≡ ok a
    → (m.meterable ≡ true)
      × (cap ≡ some a.cap_usd)
      × (a.spent_usd ≡ spent)
      × (a.remaining_usd ≡ a.cap_usd -ℤ spent)
      × (spent +ℤ pos a.floor_usd ≤ℤ a.cap_usd)
      × (m.floor_usd ≡ some a.floor_usd)
authorize_metered-eq-ok m none spent a h = ground arith
authorize_metered-eq-ok m (some cap) spent a h = elim (Bool-cases m.meterable) [
  | inl yes_metered ↦
      let (p, q, r, s, t) = grant-eq-ok m cap spent m.floor_usd a (rw yes_metered at h) in
      (yes_metered, ap some p, q, r, s, t)
  | inr unmetered ↦ absurd (ground arith)
]

-- What was metered before the permission was given.
authorize-eq-ok :
    (model : String) (cap : Option ℤ) (spent : ℤ) (a : Authorization)
    → authorize model cap spent ≡ ok a
    → (m : Metering) × (metering_capability model ≡ ok m) × (authorize_metered m cap spent ≡ ok a)
unfolding authorize
authorize-eq-ok model cap spent a h = elim (Result-cases (metering_capability model)) [
  | inl (m, e) ↦ (m, e, rw e at h)
  | inr (x, q) ↦ absurd (cc (h, q))
]

-- A permission is given only to a metered model and under a declared cap; it covers the floor of one
-- run on top of what is spent, and it says what remains.
pub authorize-covers :
    (model : String) (cap : Option ℤ) (spent : ℤ) (a : Authorization)
    → authorize model cap spent ≡ ok a
    → (cap ≡ some a.cap_usd)
      × (a.spent_usd ≡ spent)
      × (a.remaining_usd ≡ a.cap_usd -ℤ spent)
      × (spent +ℤ pos a.floor_usd ≤ℤ a.cap_usd)
      × ((m : Metering) × (metering_capability model ≡ ok m)
          × (m.meterable ≡ true)
          × (m.floor_usd ≡ some a.floor_usd))
authorize-covers model cap spent a h =
    let (m, e, g) = authorize-eq-ok model cap spent a h in
    let (p, q, r, s, t, u) = authorize_metered-eq-ok m cap spent a g in (q, r, s, t, (m, e, p, u))
