-- ===== src/Sweep/Matrix/Sort.antt =====
-- run.py, `build_runs`: `sweep_runs.sort(key=...)`, a stable sort by a key of four numbers.
use model_eval.Prelude.{
  ℕ, suc, ◌≡◌, refl, ap, ◌∙◌, Bool, true, false, not, ◌&&◌, ◌||◌, List, [], ◌∷◌, arith, ltb, ◌==◌,
  count_of, if◌then◌else◌, Bool-cases, inl, inr,
}

abbrev pub Key4 : Type 0
Key4 = ℕ × ℕ × ℕ × ℕ

-- The order of Python's tuples.
unfoldable pub key_le : Key4 → Key4 → Bool
key_le (a, b, c, d) (p, q, r, s) =
    ltb a p || (a == p && (ltb b q || (b == q && (ltb c r || (c == r && not (ltb s d))))))

key_le-total : (a b : Key4) → key_le a b ≡ false → key_le b a ≡ true
unfolding key_le
key_le-total (a, b, c, d) (p, q, r, s) h = ground (arith, h)

key_le_trans : (a b c : Key4) → key_le a b ≡ true → key_le b c ≡ true → key_le a c ≡ true
unfolding key_le
key_le_trans (a, b, c, d) (p, q, r, s) (x, y, z, w) h k = ground (arith, h, k)

module _ {A : Type 0} where
  unfoldable pub insert_by_key : Key4 × A → List (Key4 × A) → List (Key4 × A)
  insert_by_key x [] = x ∷ []
  insert_by_key x (y ∷ ys) =
      let rest = insert_by_key x ys in if key_le x.0 y.0 then x ∷ y ∷ ys else y ∷ rest

  unfoldable pub sorted_by_key : List (Key4 × A) → List (Key4 × A)
  unfolding insert_by_key
  sorted_by_key [] = []
  sorted_by_key (x ∷ xs) = insert_by_key x (sorted_by_key xs)

  count_of-insert :
      (p : Key4 × A → Bool) (x : Key4 × A) (ys : List (Key4 × A))
      → count_of p (insert_by_key x ys) ≡ count_of p (x ∷ ys)
  unfolding insert_by_key
  count_of-insert p x [] = refl
  count_of-insert p x (y ∷ ys) = ground (arith, count_of-insert p x ys)

  -- Sorting keeps how many entries pass a test.
  pub count_of-sorted :
      (p : Key4 × A → Bool) (xs : List (Key4 × A)) → count_of p (sorted_by_key xs) ≡ count_of p xs
  unfolding sorted_by_key
  count_of-sorted p [] = refl
  count_of-sorted p (x ∷ xs) =
      count_of-insert p x (sorted_by_key xs)
      ∙ ap (λ (n : ℕ). if p x then suc n else n) (count_of-sorted p xs)

  -- Whether no entry stands in front of one with a smaller key.
  abbrev pub below_all : Key4 → List (Key4 × A) → Bool
  below_all k [] = true
  below_all k (y ∷ ys) = key_le k y.0 && below_all k ys

  abbrev pub is_sorted : List (Key4 × A) → Bool
  is_sorted [] = true
  is_sorted (x ∷ xs) = below_all x.0 xs && is_sorted xs

  below_all_trans :
      (k l : Key4) (ys : List (Key4 × A))
      → key_le k l ≡ true
      → below_all l ys ≡ true
      → below_all k ys ≡ true
  below_all_trans k l [] h e = refl
  below_all_trans k l (y ∷ ys) h e =
      ground (arith, h, e, key_le_trans k l y.0, below_all_trans k l ys)

  below_all-insert :
      (k : Key4) (x : Key4 × A) (ys : List (Key4 × A))
      → key_le k x.0 ≡ true
      → below_all k ys ≡ true
      → below_all k (insert_by_key x ys) ≡ true
  unfolding insert_by_key
  below_all-insert k x [] h e = ground (arith, h)
  below_all-insert k x (y ∷ ys) h e = ground (arith, h, e, below_all-insert k x ys)

  insert-is_sorted :
      (x : Key4 × A) (ys : List (Key4 × A))
      → is_sorted ys ≡ true
      → is_sorted (insert_by_key x ys) ≡ true
  unfolding insert_by_key
  insert-is_sorted x [] h = refl
  insert-is_sorted x (y ∷ ys) h = elim (Bool-cases (key_le x.0 y.0)) [
    | inl e ↦ ground (arith, h, e, below_all_trans x.0 y.0 ys)
    | inr e ↦
        ground (arith, h, e, key_le-total x.0 y.0, below_all-insert y.0 x ys, insert-is_sorted x ys)
  ]

  -- The sort leaves no entry in front of one with a smaller key.
  pub sorted-is_sorted : (xs : List (Key4 × A)) → is_sorted (sorted_by_key xs) ≡ true
  unfolding sorted_by_key
  sorted-is_sorted [] = refl
  sorted-is_sorted (x ∷ xs) = insert-is_sorted x (sorted_by_key xs) (sorted-is_sorted xs)
