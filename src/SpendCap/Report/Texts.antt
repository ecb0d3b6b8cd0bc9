-- ===== src/SpendCap/Report/Texts.antt =====
-- spend_cap.py, `metering_report`: what sorting and a set keep of a list of texts.
use model_eval.Prelude.{
  suc, ◌≡◌, refl, ap, ◌∙◌, sym, subst, String, Bool, true, ◌&&◌, List, [], ◌∷◌, keep, length,
  count_of, string_key, ◌=?◌, eq_iff, contains, arith, if◌then◌else◌, Bool-cases, inl, inr,
}
use model_eval.SpendCap.Report.{insert_text, sorted, set_of}

length-insert_text : (s : String) (ts : List String) → length (insert_text s ts) ≡ suc (length ts)
length-insert_text s [] = refl
length-insert_text s (t ∷ ts) = ground (arith, length-insert_text s ts)

pub length-sorted : (ss : List String) → length (sorted ss) ≡ length ss
length-sorted [] = refl
length-sorted (s ∷ ss) = omega (arith, length-insert_text s (sorted ss), length-sorted ss)

count_of-insert_text :
    (p : String → Bool) (s : String) (ts : List String)
    → count_of p (insert_text s ts) ≡ count_of p (s ∷ ts)
count_of-insert_text p s [] = refl
count_of-insert_text p s (t ∷ ts) = ground (arith, count_of-insert_text p s ts)

pub count_of-sorted :
    (p : String → Bool) (ss : List String) → count_of p (sorted ss) ≡ count_of p ss
count_of-sorted p [] = refl
count_of-sorted p (s ∷ ss) =
    ground (arith, count_of-insert_text p s (sorted ss), count_of-sorted p ss)

contains-insert_text :
    (x s : String) (ts : List String) → contains x (insert_text s ts) ≡ contains x (s ∷ ts)
contains-insert_text x s [] = refl
contains-insert_text x s (t ∷ ts) = ground (arith, contains-insert_text x s ts)

pub contains-sorted : (x : String) (ss : List String) → contains x (sorted ss) ≡ contains x ss
contains-sorted x [] = refl
contains-sorted x (s ∷ ss) =
    contains-insert_text x s (sorted ss)
    ∙ ap (λ (b : Bool). if x =? s then true else b) (contains-sorted x ss)

-- Two texts that compare as equal stand in the same lists.
same_contains : (x s : String) (ts : List String) → (x =? s) ≡ true → contains s ts ≡ contains x ts
same_contains x s ts e = ap (λ (y : String). contains y ts) (sym ((eq_iff x s).0 e))

pub contains-set_of : (x : String) (ss : List String) → contains x (set_of ss) ≡ contains x ss
contains-set_of x [] = refl
contains-set_of x (s ∷ ss) = ground (arith, contains-set_of x ss, same_contains x s (set_of ss))

pub contains-keep :
    (p : String → Bool) (x : String) (ss : List String)
    → contains x (keep p ss) ≡ (contains x ss && p x)
contains-keep p x [] = refl
contains-keep p x (s ∷ ss) = elim (Bool-cases (x =? s)) [
  | inl e ↦
      subst (λ (y : String). contains x (keep p (y ∷ ss)) ≡ (contains x (y ∷ ss) && p x))
        ((eq_iff x s).0 e) (ground (arith, contains-keep p x ss, (eq_iff x x).1 refl))
  | inr e ↦ ground (arith, contains-keep p x ss, e)
]
