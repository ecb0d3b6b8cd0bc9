-- ===== src/Sweep/Invoke/Trace.antt =====
-- run.py, `main`: what the loop over the pending runs adds to the results, and what it spends.
use model_eval.Prelude.{
  ℕ, suc, ◌+◌, ◌≤◌, ◌≡◌, refl, sym, ap, ◌∙◌, subst, Bool, false, ◌&&◌, Option, List, [], ◌∷◌, ◌++◌,
  map, arith, string_key, count_of, All, All-append, if◌then◌else◌, Result, ok, err, append_assoc,
  append-nil,
}
use mathlib.Core.List.{map-append}
use model_eval.Registry.{is_metered}
use model_eval.Sweep.{Run, ResultRow, Line, written, as_row, from_registry}
use model_eval.Sweep.Invoke.{Ran, State, kimi_dollars, reaches_cap}

abbrev pub line_of : Ran → Line
line_of r = written (as_row r.row)

abbrev pub ok_or {ℓ μ} : {E : Type μ} {A : Type ℓ} → A → Result E A → A
ok_or d (ok a) = a
ok_or d (err e) = d

abbrev pub is_metered_run : Ran → Bool
is_metered_run r = ok_or false (from_registry (is_metered r.run.model))

-- What a run adds to the metered spend.
abbrev pub price_of : Ran → ℕ
price_of r = if is_metered_run r then ok_or 0 (kimi_dollars r.row) else 0

abbrev pub cost : List Ran → ℕ
cost [] = 0
cost (r ∷ rs) = price_of r + cost rs

-- Every run starts from the sum of the prices before it, and a metered one only below the cap.
abbrev pub Chain : Option ℕ → ℕ → List Ran → Type 0
Chain cap spent [] = Unit
Chain cap spent (r ∷ rs) =
    (r.spent_before ≡ spent)
    × ((is_metered_run r && reaches_cap cap spent) ≡ false)
    × Chain cap (spent + price_of r) rs

-- What the loop does for some runs between two states.
pub record IsTrace (cap : Option ℕ) (runs : List Run) (s t : State) : Type 0 where
  pub new : List Ran
  pub ran : t.ran ≡ s.ran ++ new
  pub results : t.corpus.results ≡ s.corpus.results ++ map line_of new
  pub recorded : t.recorded ≡ s.recorded
  pub spent : t.spent ≡ s.spent + cost new
  pub chain : Chain cap s.spent new
  pub named : All (λ r. r.row.run_id ≡ r.run.run_id) new
  pub within : (p : Run → Bool) → count_of (λ r. p r.run) new ≤ count_of p runs

pub stay :
    (cap : Option ℕ) (runs : List Run) (s t : State)
    → t.ran ≡ s.ran
    → t.corpus.results ≡ s.corpus.results
    → t.recorded ≡ s.recorded
    → t.spent ≡ s.spent
    → IsTrace cap runs s t
stay cap runs s t a b c d = record {
  new = [];
  ran = a ∙ sym (append-nil s.ran);
  results = b ∙ sym (append-nil s.corpus.results);
  recorded = c;
  spent = omega (arith, d);
  chain = tt;
  named = tt;
  within = λ p. omega arith;
}

cost-append : (xs ys : List Ran) → cost (xs ++ ys) ≡ cost xs + cost ys
cost-append [] ys = omega arith
cost-append (x ∷ xs) ys = omega (arith, cost-append xs ys)

Chain-append :
    (cap : Option ℕ) (n m : ℕ) (xs ys : List Ran)
    → Chain cap n xs
    → m ≡ n + cost xs
    → Chain cap m ys
    → Chain cap n (xs ++ ys)
Chain-append cap n m [] ys h e k = subst (λ (t : ℕ). Chain cap t ys) (omega (arith, e)) k
Chain-append cap n m (x ∷ xs) ys (a, b, h) e k =
    (a, b, Chain-append cap (n + price_of x) m xs ys h (omega (arith, e)) k)

All-named-append :
    (xs ys : List Ran)
    → All (λ r. r.row.run_id ≡ r.run.run_id) xs
    → All (λ r. r.row.run_id ≡ r.run.run_id) ys
    → All (λ r. r.row.run_id ≡ r.run.run_id) (xs ++ ys)
All-named-append xs ys h k = All-append (λ r. r.row.run_id ≡ r.run.run_id) xs ys h k

count_of-append :
    (p : Ran → Bool) (xs ys : List Ran) → count_of p (xs ++ ys) ≡ count_of p xs + count_of p ys
count_of-append p [] ys = omega arith
count_of-append p (x ∷ xs) ys = ground (arith, count_of-append p xs ys)

map-line-append : (xs ys : List Ran) → map line_of (xs ++ ys) ≡ map line_of xs ++ map line_of ys
map-line-append xs ys = map-append line_of xs ys

within_sum :
    (b : Bool) (x m n l : ℕ)
    → x ≡ m + n
    → m ≤ (if b then 1 else 0)
    → n ≤ l
    → x ≤ (if b then suc l else l)
within_sum b x m n l e h k = ground arith

pub join :
    (cap : Option ℕ) (run : Run) (rest : List Run) (s t u : State)
    → IsTrace cap (run ∷ []) s t
    → IsTrace cap rest t u
    → IsTrace cap (run ∷ rest) s u
join cap run rest s t u h k = record {
  new = h.new ++ k.new;
  ran = k.ran ∙ ap (λ (x : List Ran). x ++ k.new) h.ran ∙ append_assoc s.ran h.new k.new;
  results =
      k.results
      ∙ ap (λ (x : List Line). x ++ map line_of k.new) h.results
      ∙ append_assoc s.corpus.results (map line_of h.new) (map line_of k.new)
      ∙ ap (λ (x : List Line). s.corpus.results ++ x) (sym (map-line-append h.new k.new));
  recorded = k.recorded ∙ h.recorded;
  spent = omega (arith, h.spent, k.spent, cost-append h.new k.new);
  chain = Chain-append cap s.spent t.spent h.new k.new h.chain h.spent k.chain;
  named = All-named-append h.new k.new h.named k.named;
  within = λ p.
      within_sum (p run) (count_of (λ r. p r.run) (h.new ++ k.new)) (count_of (λ r. p r.run) h.new)
        (count_of (λ r. p r.run) k.new) (count_of p rest)
        (count_of-append (λ r. p r.run) h.new k.new) (h.within p) (k.within p);
}

-- One run that was executed.
pub one :
    (cap : Option ℕ) (run : Run) (row : ResultRow) (s t : State)
    → (let r : Ran = record { run = run; row = row; spent_before = s.spent } in
        (t.ran ≡ s.ran ++ r ∷ [])
        × (t.corpus.results ≡ s.corpus.results ++ line_of r ∷ [])
        × (t.recorded ≡ s.recorded)
        × (t.spent ≡ s.spent + price_of r)
        × ((is_metered_run r && reaches_cap cap s.spent) ≡ false)
        × (row.run_id ≡ run.run_id))
    → IsTrace cap (run ∷ []) s t
one cap run row s t (a, b, c, d, e, f) = record {
  new = record { run = run; row = row; spent_before = s.spent } ∷ [];
  ran = a;
  results = b;
  recorded = c;
  spent = omega (arith, d);
  chain = (refl, e, tt);
  named = (f, tt);
  within = λ p. omega arith;
}
