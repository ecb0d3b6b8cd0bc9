-- ===== src/CorpusGuard/Inside.antt =====
-- corpus_guard.py, `is_inside_or_same`: the climbs end, and they find the container wherever the file
-- system says that it is an ancestor.
use model_eval.Prelude.{
  ℕ, zero, suc, ◌<◌, ◌≡◌, ◌⊎◌, refl, sym, ap, subst, ◌∙◌, String, Bool, true, false, Option, some,
  string_key, ◌=?◌, eq_iff, arith, Bool-cases, inl, inr, Option-cases,
}
use model_eval.CorpusGuard.{
  FileSystem, or_no, nearest_existing_ancestor, climb, walk_to_root_for_match,
  case_insensitive_ancestor_match, is_inside_or_same, refuse_scratch_inside_results,
}

-- `os.path.dirname` leads to a root: where it moves, the path has less depth.
pub record IsRooted (fs : FileSystem) (depth : String → ℕ) : Type 0 where
  pub climbs : (path : String) → (fs.dirname path ≡ path) ⊎ (depth (fs.dirname path) < depth path)

module _ (fs : FileSystem) (depth : String → ℕ) where
  -- The `n`-th directory above a path.
  abbrev pub above : ℕ → String → String
  above zero path = path
  above (suc n) path = above n (fs.dirname path)

  above_root : (n : ℕ) (path : String) → fs.dirname path ≡ path → above n path ≡ path
  above_root zero path h = refl
  above_root (suc n) path h = rw h (above_root n path h)

  climb-ends :
      (fuel : ℕ) (path container : String)
      → IsRooted fs depth
      → depth path < fuel
      → (b : Bool) × (climb fs fuel path container ≡ some b)
  unfolding climb
  climb-ends zero path container r h = absurd (omega (arith, h))
  climb-ends (suc fuel) path container r h =
      elim (Bool-cases (or_no (fs.samefile path container))) [
        | inl same ↦ (true, ground arith)
        | inr other ↦ elim (Bool-cases (fs.dirname path =? path)) [
          | inl root ↦ (false, ground arith)
          | inr deeper ↦
              let below : depth (fs.dirname path) < fuel =
                ground (arith, r.climbs path, eq_iff (fs.dirname path) path) in
              let (b, e) = climb-ends fuel (fs.dirname path) container r below in (b, ground arith)
        ]
      ]

  climb-finds :
      (n fuel : ℕ) (path container : String)
      → IsRooted fs depth
      → depth path < fuel
      → or_no (fs.samefile (above n path) container) ≡ true
      → climb fs fuel path container ≡ some true
  unfolding climb
  climb-finds n zero path container r h found = absurd (omega (arith, h))
  climb-finds zero (suc fuel) path container r h found = ground arith
  climb-finds (suc n) (suc fuel) path container r h found =
      elim (Bool-cases (or_no (fs.samefile path container))) [
        | inl same ↦ ground arith
        | inr other ↦ elim (Bool-cases (fs.dirname path =? path)) [
          | inl root ↦
              let fixed : fs.dirname path ≡ path = (eq_iff (fs.dirname path) path).0 root in
              let at : or_no (fs.samefile path container) ≡ true =
                subst (λ (p : String). or_no (fs.samefile p container) ≡ true)
                  (ap (above n) fixed ∙ above_root n path fixed) found in
              absurd (cc (at, other))
          | inr deeper ↦
              let below : depth (fs.dirname path) < fuel =
                ground (arith, r.climbs path, eq_iff (fs.dirname path) path) in
              let up = climb-finds n fuel (fs.dirname path) container r below found in ground arith
        ]
      ]

  -- Where the climb to what exists stops: no higher than anything above that exists.
  nearest-below :
      (n fuel : ℕ) (path : String)
      → IsRooted fs depth
      → depth path < fuel
      → fs.exists (above n path) ≡ true
      → (stop : String) × (k : ℕ) × (nearest_existing_ancestor fs fuel path ≡ some stop)
        × (above k stop ≡ above n path)
        × (depth stop < fuel)
  unfolding nearest_existing_ancestor
  nearest-below n zero path r h found = absurd (omega (arith, h))
  nearest-below zero (suc fuel) path r h found = (path, 0, ground arith, refl, h)
  nearest-below (suc n) (suc fuel) path r h found = elim (Bool-cases (fs.exists path)) [
    | inl here ↦ (path, suc n, ground arith, refl, h)
    | inr gone ↦ elim (Bool-cases (fs.dirname path =? path)) [
      | inl root ↦ (path, suc n, ground arith, refl, h)
      | inr deeper ↦
          let below : depth (fs.dirname path) < fuel =
            ground (arith, r.climbs path, eq_iff (fs.dirname path) path) in
          let (stop, k, e, up, d) = nearest-below n fuel (fs.dirname path) r below found in
          (stop, k, ground arith, up, omega (arith, d))
    ]
  ]

  nearest-ends :
      (fuel : ℕ) (path : String)
      → IsRooted fs depth
      → depth path < fuel
      → (stop : String) × (nearest_existing_ancestor fs fuel path ≡ some stop) × (depth stop < fuel)
  unfolding nearest_existing_ancestor
  nearest-ends zero path r h = absurd (omega (arith, h))
  nearest-ends (suc fuel) path r h = elim (Bool-cases (fs.exists path)) [
    | inl here ↦ (path, ground arith, h)
    | inr gone ↦ elim (Bool-cases (fs.dirname path =? path)) [
      | inl root ↦ (path, ground arith, h)
      | inr deeper ↦
          let below : depth (fs.dirname path) < fuel =
            ground (arith, r.climbs path, eq_iff (fs.dirname path) path) in
          let (stop, e, d) = nearest-ends fuel (fs.dirname path) r below in
          (stop, ground arith, omega (arith, d))
    ]
  ]

  walk-ends :
      (fuel : ℕ) (path container : String)
      → IsRooted fs depth
      → depth path < fuel
      → (b : Bool) × (walk_to_root_for_match fs fuel path container ≡ some b)
  unfolding walk_to_root_for_match
  walk-ends fuel path container r h =
      let (stop, e, d) = nearest-ends fuel path r h in
      let (b, c) = climb-ends fuel stop container r d in (b, ground arith)

  walk-finds :
      (n fuel : ℕ) (path container : String)
      → IsRooted fs depth
      → depth path < fuel
      → fs.exists (above n path) ≡ true
      → or_no (fs.samefile (above n path) container) ≡ true
      → walk_to_root_for_match fs fuel path container ≡ some true
  unfolding walk_to_root_for_match
  walk-finds n fuel path container r h here same =
      let (stop, k, e, up, d) = nearest-below n fuel path r h here in
      let found : or_no (fs.samefile (above k stop) container) ≡ true =
        subst (λ (p : String). or_no (fs.samefile p container) ≡ true) (sym up) same in
      let c = climb-finds k fuel stop container r d found in ground arith

  -- With more fuel than the depth of the absolute and of the resolved path of the candidate, the guard
  -- answers.
  pub refuse_scratch-ends :
      (fuel : ℕ) (scratch results_dir : String)
      → IsRooted fs depth
      → depth (fs.abspath scratch) < fuel
      → depth (fs.realpath scratch) < fuel
      → (answer : Option (String × String)) × (refuse_scratch_inside_results fs fuel scratch
            results_dir
          ≡ some answer)
  unfolding refuse_scratch_inside_results is_inside_or_same case_insensitive_ancestor_match
  refuse_scratch-ends fuel scratch results_dir r ha hr =
      let (a, e) = walk-ends fuel (fs.abspath scratch) results_dir r ha in
      let (b, q) = walk-ends fuel (fs.realpath scratch) results_dir r hr in
      elim (Option-cases (refuse_scratch_inside_results fs fuel scratch results_dir)) [
        | inr (answer, k) ↦ (answer, k)
        | inl k ↦ absurd (elim (Bool-cases a) [ inl _ ↦ ground arith | inr _ ↦ ground arith ])
      ]

  -- With more fuel than the depth of the absolute and of the resolved path of a scratch directory, the
  -- guard refuses it where some directory above it, by either path, exists and is the same file as the
  -- existing results directory.
  pub refuse_scratch-inside :
      (fuel n : ℕ) (scratch results_dir : String)
      → IsRooted fs depth
      → depth (fs.abspath scratch) < fuel
      → depth (fs.realpath scratch) < fuel
      → fs.exists results_dir ≡ true
      → ((fs.exists (above n (fs.abspath scratch)) ≡ true)
          × (or_no (fs.samefile (above n (fs.abspath scratch)) results_dir) ≡ true))
        ⊎ ((fs.exists (above n (fs.realpath scratch)) ≡ true)
            × (or_no (fs.samefile (above n (fs.realpath scratch)) results_dir) ≡ true))
      → refuse_scratch_inside_results fs fuel scratch results_dir
        ≡ some (some (fs.realpath scratch, fs.realpath results_dir))
  unfolding refuse_scratch_inside_results is_inside_or_same case_insensitive_ancestor_match
  refuse_scratch-inside fuel n scratch results_dir r ha hr there (inl (here, same)) =
      let w = walk-finds n fuel (fs.abspath scratch) results_dir r ha here same in ground arith
  refuse_scratch-inside fuel n scratch results_dir r ha hr there (inr (here, same)) =
      let w = walk-finds n fuel (fs.realpath scratch) results_dir r hr here same in
      let (b, e) = walk-ends fuel (fs.abspath scratch) results_dir r ha in
      elim (Bool-cases b) [ inl yes_it ↦ ground arith | inr no_it ↦ ground arith ]
