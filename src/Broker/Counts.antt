-- ===== src/Broker/Counts.antt =====
-- broker.py, `parse_counts`: the sums do not show in which order the suites ran.
use model_eval.Prelude.{
  ℕ, ◌+◌, ◌≡◌, refl, sym, ap, ◌∙◌, Option, none, some, String, List, [], ◌∷◌, ◌++◌, arith,
  string_key, eq_iff, ◌=?◌, if◌then◌else◌, Tally,
}
use model_eval.Broker.{
  add_count, outcome_key, sum_matches, count_at, in_key_order, count_keys, parse_counts,
}

-- The sum of two counts that may be missing.
merge : Option ℕ → Option ℕ → Option ℕ
merge none b = b
merge (some a) none = some a
merge (some a) (some b) = some (a + b)

merge_assoc : (a b c : Option ℕ) → merge (merge a b) c ≡ merge a (merge b c)
unfolding merge
merge_assoc a b c = ground arith

merge_comm : (a b : Option ℕ) → merge a b ≡ merge b a
unfolding merge
merge_comm a b = ground arith

-- What the matches with a key add up to.
found_at : String → List (ℕ × String) → Option ℕ
unfolding merge
found_at key [] = none
found_at key ((n, word) ∷ found) =
    merge (if key =? outcome_key word then some n else none) (found_at key found)

count_at-add :
    (key j : String) (n : ℕ) (t : Tally String)
    → count_at key (add_count j n t) ≡ merge (count_at key t) (if key =? j then some n else none)
unfolding merge
count_at-add key j n [] = ground (arith, eq_iff key j)
count_at-add key j n ((i, m) ∷ t) =
    ground (arith, count_at-add key j n t, eq_iff key j, eq_iff key i, eq_iff j i)

count_at-sum :
    (key : String) (found : List (ℕ × String)) (t : Tally String)
    → count_at key (sum_matches found t) ≡ merge (count_at key t) (found_at key found)
unfolding sum_matches found_at
count_at-sum key [] t = unfold merge in ground arith
count_at-sum key ((n, word) ∷ found) t =
    count_at-sum key found (add_count (outcome_key word) n t)
    ∙ ap (λ o. merge o (found_at key found)) (count_at-add key (outcome_key word) n t)
    ∙ merge_assoc (count_at key t) _ (found_at key found)

found_at-append :
    (key : String) (xs ys : List (ℕ × String))
    → found_at key (xs ++ ys) ≡ merge (found_at key xs) (found_at key ys)
unfolding found_at
found_at-append key [] ys = refl
found_at-append key ((n, word) ∷ xs) ys =
    ap (merge _) (found_at-append key xs ys)
    ∙ sym (merge_assoc _ (found_at key xs) (found_at key ys))

in_key_order-same :
    (keys : List String) (t u : Tally String)
    → ((key : String) → count_at key t ≡ count_at key u)
    → in_key_order keys t ≡ in_key_order keys u
in_key_order-same [] t u h = refl
in_key_order-same (key ∷ keys) t u h = ground (arith, h key, in_key_order-same keys t u h)

-- The counts of two blocks of output are the same whichever block comes first.
pub parse_counts-swap :
    (xs ys : List (ℕ × String)) → parse_counts (xs ++ ys) ≡ parse_counts (ys ++ xs)
unfolding parse_counts found_at merge
parse_counts-swap xs ys =
    in_key_order-same count_keys (sum_matches (xs ++ ys) []) (sum_matches (ys ++ xs) []) (λ key.
      count_at-sum key (xs ++ ys) []
      ∙ found_at-append key xs ys
      ∙ merge_comm (found_at key xs) (found_at key ys)
      ∙ sym (found_at-append key ys xs)
      ∙ sym (count_at-sum key (ys ++ xs) []))
