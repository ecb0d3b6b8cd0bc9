-- ===== src/ServingRegistry/NewRow.antt =====
-- serving_registry.py: what `new_row` and the two probes keep true of a row.
use model_eval.Prelude.{
  ℕ, ◌≡◌, ◌≢◌, refl, subst, String, Bool, true, false, not, ◌&&◌, ◌||◌, Option, none, some, List,
  [], ◌∷◌, arith, string_key, eq_iff, lookup, is_some, contains, keep, leb, ◌==◌, if◌then◌else◌, ok,
  ◌>>=◌, ◌>>◌, raise_if, Option-cases, Bool-cases, inl, inr, raise_if-ok,
}
use model_eval.Prelude.Int.{ℤ, ltb_ℤ}
use model_eval.ServingRegistry.{
  Scalar, number_of, serving_fields, driver_capabilities, NoiseProbe, ReasoningProbe, ServingRow,
  ServingError, valid_timeout, validate_client_timeout_ms, is_empty, asserts_other, missing_from,
  pinned, RowRequest, is_unauthorized, row_of, manifest_or_raise, item_or_raise, refuted_by_probe,
  add_row, new_row, record_noise_probe, record_reasoning_probe, at_floor, declared_deterministic,
  asserted_capability, missing_fields, unauthorized_bypass, no_prefill_rate,
}

-- Whether a noise probe saw no difference in at least five runs.
abbrev pub is_flawless : Option NoiseProbe → Bool
is_flawless none = false
is_flawless (some p) = leb 5 p.of && p.identical == p.of

abbrev pub refutes : Option ℤ → ReasoningProbe → Bool
refutes none p = false
refutes (some floor) p = not (p.empty == 0) && not (ltb_ℤ p.cap_tokens floor)

-- Whether a probe saw an empty answer at a cap that reaches the floor of the row.
abbrev pub is_refuted : Option Scalar → Option ReasoningProbe → Bool
is_refuted (some floor) (some p) = refutes (number_of floor) p
is_refuted _ _ = false

abbrev pub is_valid_timeout : Option Scalar → Bool
is_valid_timeout none = true
is_valid_timeout (some v) = valid_timeout v

-- A row claims nothing that was not measured or authorised.
pub record IsHonest (row : ServingRow) : Type 0 where
  pub determinism : (not row.deterministic_loops || is_flawless row.noise_probe) ≡ true
  pub manifest :
      lookup row.driver driver_capabilities ≡ some (row.capabilities, row.max_harness_level)
  pub complete :
      (f : String) → contains f serving_fields ≡ true → is_some (lookup f row.serving) ≡ true
  pub authorised : is_unauthorized row.permission ≡ false
  pub measured : row.prefill_tok_s_min ≢ 0
  pub floor : is_refuted (lookup "max_tokens_floor" row.serving) row.reasoning_probe ≡ false
  pub timeout : is_valid_timeout row.client_timeout_ms ≡ true

-- The rows that the module builds: a new row, and what a probe makes of a row.
pub data Built : ServingRow → Type 0 where
  added :
      (model driver : String) (r : RowRequest) (row : ServingRow)
      → new_row model driver r ≡ ok row
      → Built row
  noise_probed :
      (row : ServingRow) (identical of : ℕ)
      → Built row
      → Built (record_noise_probe row identical of)
  reasoning_probed :
      (row probed : ServingRow) (cap : ℤ) (empty of : ℕ)
      → record_reasoning_probe row cap empty of ≡ ok probed
      → Built row
      → Built probed

lookup-pinned :
    (f : String) (fields : List String) (s : List (String × Scalar))
    → lookup f (pinned fields s) ≡ (if contains f fields then lookup f s else none)
lookup-pinned f [] s = refl
lookup-pinned f (g ∷ fields) s =
    ground (arith, lookup-pinned f fields s, Option-cases (lookup g s), eq_iff f g)

keep-nil :
    (f : String) (fields : List String) (s : List (String × Scalar))
    → keep (λ f. not (is_some (lookup f s))) fields ≡ []
    → contains f fields ≡ true
    → is_some (lookup f s) ≡ true
keep-nil f [] s h k = ground (arith, k)
keep-nil f (g ∷ fields) s h k =
    ground (arith, h, k, keep-nil f fields s, eq_iff f g, Option-cases (lookup g s))

-- What a request has that `new_row` accepts, besides the driver.
abbrev Accepts : String → String → RowRequest → ServingRow → List (String × Scalar) × ℕ → Type 0
Accepts model driver r row manifest =
    (is_empty (missing_from r.serving) ≡ true)
    × (is_unauthorized r.permission ≡ false)
    × ((r.prefill_tok_s == 0) ≡ false)
    × (is_valid_timeout r.client_timeout_ms ≡ true)
    × (row_of model driver manifest r ≡ row)

timeout-ok :
    (t : Option Scalar) (row x : ServingRow)
    → (validate_client_timeout_ms t >> ok row) ≡ ok x
    → (is_valid_timeout t ≡ true) × (row ≡ x)
unfolding validate_client_timeout_ms
timeout-ok none row x h = ground (arith, h)
timeout-ok (some v) row x h = elim (Bool-cases (valid_timeout v)) [
  | inl e ↦ ground (arith, h, e)
  | inr e ↦ ground (arith, h, e)
]

not-not : (b : Bool) → not b ≡ false → b ≡ true
not-not b h = ground arith

add_row-ok :
    (model driver : String) (r : RowRequest) (row : ServingRow)
    (manifest : List (String × Scalar) × ℕ)
    → add_row model driver r manifest ≡ ok row
    → Accepts model driver r row manifest
unfolding add_row
add_row-ok model driver r row manifest h =
    let (a, h1) = raise_if-ok r.deterministic_loops declared_deterministic _ row h in
    let (b, h2) =
      raise_if-ok (not (is_empty (keep (asserts_other manifest) r.capabilities)))
        asserted_capability _ row h1 in
    let (c, h3) =
      raise_if-ok (not (is_empty (missing_from r.serving)))
        (missing_fields (missing_from r.serving)) _ row h2 in
    let (d, h4) = raise_if-ok (is_unauthorized r.permission) unauthorized_bypass _ row h3 in
    let (e, h5) = raise_if-ok (r.prefill_tok_s == 0) no_prefill_rate _ row h4 in
    let (f, g) = timeout-ok r.client_timeout_ms (row_of model driver manifest r) row h5 in
    (not-not (is_empty (missing_from r.serving)) c, d, e, f, g)

new_row-ok :
    (o : Option (List (String × Scalar) × ℕ)) (model driver : String) (r : RowRequest)
    (row : ServingRow)
    → (manifest_or_raise driver o >>= add_row model driver r) ≡ ok row
    → (manifest : List (String × Scalar) × ℕ) × (o ≡ some manifest)
      × Accepts model driver r row manifest
new_row-ok none model driver r row h = absurd (ground (arith, h))
new_row-ok (some manifest) model driver r row h =
    (manifest, refl, add_row-ok model driver r row manifest h)

is_empty-nil : (xs : List String) → is_empty xs ≡ true → xs ≡ []
is_empty-nil [] h = refl
is_empty-nil (x ∷ xs) h = ground (arith, h)

pinned_complete :
    (f : String) (fields : List String) (s : List (String × Scalar))
    → keep (λ f. not (is_some (lookup f s))) fields ≡ []
    → contains f fields ≡ true
    → is_some (lookup f (pinned fields s)) ≡ true
pinned_complete f fields s h k = rw (lookup-pinned f fields s, k) (keep-nil f fields s h k)

no_probe : (o : Option Scalar) → is_refuted o none ≡ false
no_probe none = refl
no_probe (some v) = refl

row_of-IsHonest :
    (model driver : String) (r : RowRequest) (row : ServingRow)
    (manifest : List (String × Scalar) × ℕ)
    → lookup driver driver_capabilities ≡ some manifest
    → Accepts model driver r row manifest
    → IsHonest (row_of model driver manifest r)
row_of-IsHonest model driver r row (caps, level) m (a, b, c, d, e) = record {
  determinism = refl;
  manifest = m;
  complete =
      λ f k. pinned_complete f serving_fields r.serving (is_empty-nil (missing_from r.serving) a) k;
  authorised = b;
  measured = λ z. absurd (ground (arith, c, z));
  floor = no_probe (lookup "max_tokens_floor" (pinned serving_fields r.serving));
  timeout = d;
}

noise-IsHonest :
    (row : ServingRow) (identical of : ℕ)
    → IsHonest row
    → IsHonest (record_noise_probe row identical of)
unfolding record_noise_probe
noise-IsHonest row identical of h = record {
  determinism = ground arith;
  manifest = h.manifest;
  complete = h.complete;
  authorised = h.authorised;
  measured = h.measured;
  floor = h.floor;
  timeout = h.timeout;
}

probe_floor-ok :
    (o : Option Scalar) (key : String) (p : ReasoningProbe) (e : ServingError) (row x : ServingRow)
    → (item_or_raise key o >>= (λ floor.
        (if p.empty == 0 then ok false else at_floor p.cap_tokens floor)
        >>= (λ refuted. raise_if refuted e >> ok row)))
      ≡ ok x
    → (is_refuted o (some p) ≡ false) × (row ≡ x)
probe_floor-ok none key p e row x h = absurd (ground (arith, h))
probe_floor-ok (some v) key p e row x h = elim (Bool-cases (p.empty == 0)) [
  | inl z ↦ ground (arith, h, z)
  | inr z ↦ elim (Option-cases (number_of v)) [
    | inl q ↦ ground (arith, h, z, q)
    | inr (n, q) ↦ ground (arith, h, z, q)
  ]
]

reasoning-IsHonest :
    (row probed : ServingRow) (cap : ℤ) (empty of : ℕ)
    → record_reasoning_probe row cap empty of ≡ ok probed
    → IsHonest row
    → IsHonest probed
unfolding record_reasoning_probe
reasoning-IsHonest row probed cap empty of e h =
    let p : ReasoningProbe = record { cap_tokens = cap; empty = empty; of = of } in
    let (f, q) =
      probe_floor-ok (lookup "max_tokens_floor" row.serving) "max_tokens_floor" p refuted_by_probe
        (record row { reasoning_probe = some p }) probed e in
    let honest : IsHonest (record row { reasoning_probe = some p }) = record {
      determinism = h.determinism;
      manifest = h.manifest;
      complete = h.complete;
      authorised = h.authorised;
      measured = h.measured;
      floor = f;
      timeout = h.timeout;
    } in
    subst (λ (r : ServingRow). IsHonest r) q honest

-- Every row that `new_row` and the two probes build claims nothing that was not measured or authorised:
-- it is deterministic only after a noise probe with no difference in at least five runs; its capabilities
-- and its ceiling are its driver's; it has each of the six serving fields; it bypasses permissions only
-- with an authorization and its date; its prefill rate is not 0; no probe of it saw an empty answer at a
-- cap that reaches its floor; and its client timeout is positive, if it has one.
pub Built-IsHonest : (row : ServingRow) → Built row → IsHonest row
unfolding new_row
Built-IsHonest built (added model driver r row h) =
    let (manifest, m, a) = new_row-ok (lookup driver driver_capabilities) model driver r row h in
    let (_, _, _, _, q) = a in
    subst (λ (x : ServingRow). IsHonest x) q (row_of-IsHonest model driver r row manifest m a)
Built-IsHonest built (noise_probed before identical of b) =
    noise-IsHonest before identical of (Built-IsHonest before b)
Built-IsHonest built (reasoning_probed before probed cap empty of e b) =
    reasoning-IsHonest before probed cap empty of e (Built-IsHonest before b)
