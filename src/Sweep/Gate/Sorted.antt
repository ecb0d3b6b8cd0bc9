-- ===== src/Sweep/Gate/Sorted.antt =====
-- run.py, `main`: the loop of the gate sorts the whole matrix.
use model_eval.Prelude.{
  ℕ, suc, ◌+◌, ◌≡◌, refl, sym, ap, ◌∙◌, subst, String, Bool, true, false, List, [], ◌∷◌, ◌++◌, map,
  arith, keep, count_of, if◌then◌else◌, ok, append_assoc, append-nil, bind-ok, ok_inj,
}
use mathlib.Core.List.{map-append}
use model_eval.Sweep.{Run, SweepError}
use model_eval.Sweep.Gate.{
  Fate, runs, impossible, unsupported, bad, escapes, Sorting, unsorted, add_fate, sort_runs,
}

abbrev pub is_impossible : Fate → Bool
is_impossible impossible = true
is_impossible _ = false

abbrev pub is_unsupported : Fate → Bool
is_unsupported unsupported = true
is_unsupported _ = false

abbrev pub is_bad : Fate → Bool
is_bad (bad e) = true
is_bad _ = false

abbrev pub is_gated : Fate → Bool
is_gated (runs gated) = gated
is_gated _ = false

abbrev pub is_ungated : Fate → Bool
is_ungated (runs true) = false
is_ungated (runs false) = true
is_ungated _ = false

abbrev pub bad_ids : List (String × SweepError) → List String
bad_ids entries = map (λ entry. entry.0) entries

-- What the loop makes of some runs from what it had sorted before.
pub record IsSorted (fate : Run → Fate) (matrix : List Run) (s t : Sorting) : Type 0 where
  pub impossibles :
      t.impossible_runs ≡ s.impossible_runs ++ keep (λ run. is_impossible (fate run)) matrix
  pub unsupporteds :
      t.unsupported_runs ≡ s.unsupported_runs ++ keep (λ run. is_unsupported (fate run)) matrix
  pub bads :
      bad_ids t.bad_runs
      ≡ bad_ids s.bad_runs ++ map (λ run. run.run_id) (keep (λ run. is_bad (fate run)) matrix)
  pub gateds : t.gated ≡ s.gated + count_of (λ run. is_gated (fate run)) matrix
  pub ungateds : t.ungated ≡ s.ungated + count_of (λ run. is_ungated (fate run)) matrix

-- What one fate adds to each of the five.
abbrev tail_if {ℓ} : {A : Type ℓ} → Bool → A → List A → List A
tail_if b x xs = if b then x ∷ xs else xs

abbrev Adds : Run → Fate → Sorting → Sorting → Type 0
Adds run f s u =
    ((xs : List Run)
      → u.impossible_runs ++ xs ≡ s.impossible_runs ++ tail_if (is_impossible f) run xs)
    × ((xs : List Run)
        → u.unsupported_runs ++ xs ≡ s.unsupported_runs ++ tail_if (is_unsupported f) run xs)
    × ((xs : List Run)
        → bad_ids u.bad_runs ++ map (λ r. r.run_id) xs
          ≡ bad_ids s.bad_runs ++ map (λ r. r.run_id) (tail_if (is_bad f) run xs))
    × ((n : ℕ) → u.gated + n ≡ s.gated + (if is_gated f then suc n else n))
    × ((n : ℕ) → u.ungated + n ≡ s.ungated + (if is_ungated f then suc n else n))

add_fate-Adds : (run : Run) (f : Fate) (s u : Sorting) → add_fate run f s ≡ ok u → Adds run f s u
unfolding add_fate
add_fate-Adds run (runs true) s u h =
    subst (λ (x : Sorting). Adds run (runs true) s x) (ok_inj _ u h)
      (λ xs. refl, λ xs. refl, λ xs. refl, λ n. omega arith, λ n. omega arith)
add_fate-Adds run (runs false) s u h =
    subst (λ (x : Sorting). Adds run (runs false) s x) (ok_inj _ u h)
      (λ xs. refl, λ xs. refl, λ xs. refl, λ n. omega arith, λ n. omega arith)
add_fate-Adds run impossible s u h =
    subst (λ (x : Sorting). Adds run impossible s x) (ok_inj _ u h)
      (
        λ xs. append_assoc s.impossible_runs (run ∷ []) xs,
        λ xs. refl,
        λ xs. refl,
        λ n. omega arith,
        λ n. omega arith,
      )
add_fate-Adds run unsupported s u h =
    subst (λ (x : Sorting). Adds run unsupported s x) (ok_inj _ u h)
      (
        λ xs. refl,
        λ xs. append_assoc s.unsupported_runs (run ∷ []) xs,
        λ xs. refl,
        λ n. omega arith,
        λ n. omega arith,
      )
add_fate-Adds run (bad e) s u h =
    subst (λ (x : Sorting). Adds run (bad e) s x) (ok_inj _ u h)
      (
        λ xs. refl,
        λ xs. refl,
        λ xs.
            ap (λ (ids : List String). ids ++ map (λ (r : Run). r.run_id) xs)
              (map-append (λ (x : String × SweepError). x.0) s.bad_runs ((run.run_id, e) ∷ []))
            ∙ append_assoc (bad_ids s.bad_runs) (run.run_id ∷ []) (map (λ (r : Run). r.run_id) xs),
        λ n. omega arith,
        λ n. omega arith,
      )
add_fate-Adds run (escapes x) s u h = absurd (ground (arith, h))

sorts :
    (fate : Run → Fate) (matrix : List Run) (s t : Sorting)
    → sort_runs fate matrix s ≡ ok t
    → IsSorted fate matrix s t
unfolding sort_runs
sorts fate [] s t h =
    subst (λ (x : Sorting). IsSorted fate [] s x) (ok_inj s t h)
      (record {
        impossibles = sym (append-nil s.impossible_runs);
        unsupporteds = sym (append-nil s.unsupported_runs);
        bads = sym (append-nil (bad_ids s.bad_runs));
        gateds = omega arith;
        ungateds = omega arith;
      })
sorts fate (run ∷ rest) s t h =
    let (u, p, q) = bind-ok (add_fate run (fate run) s) _ t h in
    let (a, b, c, d, e) = add_fate-Adds run (fate run) s u p in
    let k = sorts fate rest u t q in
    record {
      impossibles = k.impossibles ∙ a (keep (λ run. is_impossible (fate run)) rest);
      unsupporteds = k.unsupporteds ∙ b (keep (λ run. is_unsupported (fate run)) rest);
      bads = k.bads ∙ c (keep (λ run. is_bad (fate run)) rest);
      gateds = k.gateds ∙ d (count_of (λ run. is_gated (fate run)) rest);
      ungateds = k.ungateds ∙ e (count_of (λ run. is_ungated (fate run)) rest);
    }

-- The gate sorts a matrix that it ends on without an exception: the impossible and the unsupported cells
-- are exactly the runs of the matrix with that fate, in the order of the matrix; the rejected ids are
-- those of the runs with a configuration error; and the two counts count the runs that may begin.
pub sort_runs-IsSorted :
    (fate : Run → Fate) (matrix : List Run) (t : Sorting)
    → sort_runs fate matrix unsorted ≡ ok t
    → (t.impossible_runs ≡ keep (λ run. is_impossible (fate run)) matrix)
      × (t.unsupported_runs ≡ keep (λ run. is_unsupported (fate run)) matrix)
      × (bad_ids t.bad_runs ≡ map (λ run. run.run_id) (keep (λ run. is_bad (fate run)) matrix))
      × (t.gated ≡ count_of (λ run. is_gated (fate run)) matrix)
      × (t.ungated ≡ count_of (λ run. is_ungated (fate run)) matrix)
sort_runs-IsSorted fate matrix t h =
    let k = sorts fate matrix unsorted t h in
    (k.impossibles, k.unsupporteds, k.bads, omega (arith, k.gateds), omega (arith, k.ungateds))
