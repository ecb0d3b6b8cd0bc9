-- ===== src/Sweep/Ids.antt =====
-- run.py, `existing_ids` and its two likes on results that grow, and the ids that a list of runs has.
use model_eval.Prelude.{
  ℕ, zero, suc, ◌-◌, ◌≤◌, ◌≡◌, refl, ap, ◌∙◌, subst, String, Bool, true, false, ◌||◌, Option, none,
  some, List, [], ◌∷◌, ◌++◌, map, arith, string_key, eq_iff, ◌=?◌, contains, keep, count_of, All,
  Bool-cases, inl, inr, length,
}
use model_eval.Prelude.Int.{ℤ, pos, negsuc}
use model_eval.Sweep.{Run, ResultRow, Line, written, broken, as_row, ids_with, is_reason, add_id}
use model_eval.Sweep.Invoke.{first_n, limited, without}

add_id-append :
    (b : Bool) (id : Option String) (xs ys : List String)
    → add_id b id (xs ++ ys) ≡ add_id b id xs ++ ys
add_id-append false id xs ys = refl
add_id-append true none xs ys = refl
add_id-append true (some id) xs ys = refl

pub ids_with-append :
    (reasons : List String) (xs ys : List Line)
    → ids_with reasons (xs ++ ys) ≡ ids_with reasons xs ++ ids_with reasons ys
unfolding ids_with
ids_with-append reasons [] ys = refl
ids_with-append reasons (broken ∷ xs) ys = ids_with-append reasons xs ys
ids_with-append reasons (written row ∷ xs) ys =
    ap (λ (ids : List String). add_id (is_reason reasons row.exit_reason) row.run_id ids)
      (ids_with-append reasons xs ys)
    ∙ add_id-append (is_reason reasons row.exit_reason) row.run_id (ids_with reasons xs)
        (ids_with reasons ys)

pub contains-append :
    (id : String) (xs ys : List String)
    → contains id (xs ++ ys) ≡ (contains id xs || contains id ys)
contains-append id [] ys = refl
contains-append id (x ∷ xs) ys = ground (arith, contains-append id xs ys)

pub ids_with-other :
    (reasons : List String) (rows : List ResultRow)
    → All (λ row. contains row.exit_reason reasons ≡ false) rows
    → ids_with reasons (map (λ row. written (as_row row)) rows) ≡ []
unfolding ids_with
ids_with-other reasons [] h = refl
ids_with-other reasons (row ∷ rows) (e, h) =
    ap
      (λ (b : Bool).
        add_id b (some row.run_id) (ids_with reasons (map (λ row. written (as_row row)) rows)))
      e
    ∙ ids_with-other reasons rows h

pub count_of-keep :
    (p q : Run → Bool) (runs : List Run) → count_of p (keep q runs) ≤ count_of p runs
count_of-keep p q [] = omega arith
count_of-keep p q (run ∷ runs) = ground (arith, count_of-keep p q runs)

count_of-first_n :
    (p : Run → Bool) (n : ℕ) (runs : List Run) → count_of p (first_n n runs) ≤ count_of p runs
count_of-first_n p n [] = omega arith
count_of-first_n p zero (run ∷ runs) = ground arith
count_of-first_n p (suc n) (run ∷ runs) = ground (arith, count_of-first_n p n runs)

pub count_of-limited :
    (p : Run → Bool) (limit : Option ℤ) (runs : List Run)
    → count_of p (limited limit runs) ≤ count_of p runs
count_of-limited p none runs = omega arith
count_of-limited p (some (pos n)) runs = count_of-first_n p n runs
count_of-limited p (some (negsuc n)) runs = count_of-first_n p (length runs - suc n) runs

pub count_of-without :
    (id : String) (ids : List String) (runs : List Run)
    → contains id ids ≡ true
    → count_of (λ run. run.run_id =? id) (without ids runs) ≡ 0
count_of-without id ids [] h = refl
count_of-without id ids (run ∷ runs) h = elim (Bool-cases (contains run.run_id ids)) [
  | inl c ↦ rw c (count_of-without id ids runs h)
  | inr c ↦ elim (Bool-cases (run.run_id =? id)) [
    | inl e ↦
        let x : contains id ids ≡ false =
          subst (λ (t : String). contains t ids ≡ false) ((eq_iff run.run_id id).0 e) c in
        absurd (ground (arith, h, x))
    | inr e ↦ rw (c, e) (count_of-without id ids runs h)
  ]
]
