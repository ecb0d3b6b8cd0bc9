-- ===== src/RunStatus/Class.antt =====
-- run_status.py, `status_class`: what a joined exit reason is worth, and when a row is scored.
use Prim.Native.Char.{Char, code}
use model_eval.Prelude.{
  true, ℕ, ◌≤◌, ◌<◌, min, String, ◌≡◌, ◌≢◌, refl, ap, ◌∙◌, ◌↔◌, some, List, [], ◌∷◌, ◌++◌, map,
  arith, ltb, keep-append, All, Bool-cases, inl, inr,
}
use mathlib.Core.List.{map-append}
use model_eval.Prelude.Text.{split_on, split_on-append, ◌+++◌}
use model_eval.Rows.{Row}
use model_eval.RunStatus.{
  StatusClass, severity, class_of, worst, worst_of, parts, status_class, non_empty, in_denominator,
  same_class,
}

-- The least severity in a list, against a start.
least : ℕ → List StatusClass → ℕ
least n [] = n
least n (c ∷ cs) = least (min n (severity c)) cs

severity-worst :
    (c : StatusClass) (cs : List StatusClass) → severity (worst c cs) ≡ least (severity c) cs
unfolding worst least
severity-worst c [] = refl
severity-worst c (d ∷ ds) = elim (Bool-cases (ltb (severity d) (severity c))) [
  | inl h ↦ rw (h, severity-worst d ds) (ap (λ n. least n ds) (ground arith))
  | inr h ↦ rw (h, severity-worst c ds) (ap (λ n. least n ds) (ground arith))
]

least-append : (n : ℕ) (cs ds : List StatusClass) → least n (cs ++ ds) ≡ least (least n cs) ds
unfolding least
least-append n [] ds = refl
least-append n (c ∷ cs) ds = least-append (min n (severity c)) cs ds

least-min : (m n : ℕ) (cs : List StatusClass) → least (min m n) cs ≡ min m (least n cs)
unfolding least
least-min m n [] = refl
least-min m n (c ∷ cs) = ap (λ k. least k cs) (omega arith) ∙ least-min m (min n (severity c)) cs

worst_of-append :
    (cs ds : List StatusClass)
    → cs ≢ []
    → ds ≢ []
    → severity (worst_of (cs ++ ds)) ≡ min (severity (worst_of cs)) (severity (worst_of ds))
unfolding worst_of least
worst_of-append [] ds h k = absurd (h refl)
worst_of-append (c ∷ cs) [] h k = absurd (k refl)
worst_of-append (c ∷ cs) (d ∷ ds) h k =
    rw
      (
        severity-worst c (cs ++ d ∷ ds),
        severity-worst c cs,
        severity-worst d ds,
        least-append (severity c) cs (d ∷ ds),
      )
      (least-min (least (severity c) cs) (severity d) ds)

parts-join :
    (s t : String) (plus : Char)
    → code plus ≡ b'+'
    → parts (s +++ String.◌∷◌ plus t) ≡ parts s ++ parts t
unfolding parts
parts-join s t plus h =
    rw (split_on-append b'+' s t plus h) (keep-append non_empty (split_on b'+' s) (split_on b'+' t))

map-ne-nil : (ps : List String) → ps ≢ [] → map class_of ps ≢ []
map-ne-nil [] h = λ e. h refl
map-ne-nil (p ∷ ps) h = ground arith

-- Two exit reasons that each have a part, joined by '+', are worth the worse of the two.
pub status_class-join :
    (s t : String) (plus : Char)
    → code plus ≡ b'+'
    → parts s ≢ []
    → parts t ≢ []
    → severity (status_class (some (s +++ String.◌∷◌ plus t)))
      ≡ min (severity (status_class (some s))) (severity (status_class (some t)))
unfolding status_class
status_class-join s t plus h hs ht =
    rw (parts-join s t plus h, map-append)
      (worst_of-append (map class_of (parts s)) (map class_of (parts t)) (map-ne-nil (parts s) hs)
        (map-ne-nil (parts t) ht))

abbrev pub IsScored : String → Type 0
IsScored p = class_of p ≡ StatusClass.scored

-- A class that is not the best is not `scored`.
below-scored : (c d : StatusClass) → severity c < severity d → c ≢ StatusClass.scored
unfolding severity
below-scored c d h = ground arith

at-scored :
    (c d : StatusClass) → severity c ≤ severity d → c ≡ StatusClass.scored → d ≡ StatusClass.scored
unfolding severity
at-scored c d h = ground arith

worst-scored :
    (c : StatusClass) (ps : List String)
    → (worst c (map class_of ps) ≡ StatusClass.scored)
      ↔ ((c ≡ StatusClass.scored) × All IsScored ps)
unfolding worst
worst-scored c [] = (λ h. (h, tt), λ h. h.0)
worst-scored c (p ∷ ps) = elim (Bool-cases (ltb (severity (class_of p)) (severity c))) [
  | inl h ↦ rw h (ground (arith, worst-scored (class_of p) ps, below-scored (class_of p) c))
  | inr h ↦ rw h (ground (arith, worst-scored c ps, at-scored c (class_of p)))
]

-- A reason is scored exactly when it has a part and the table declares every part `scored`.
pub status_class-eq-scored :
    (s : String)
    → (status_class (some s) ≡ StatusClass.scored) ↔ ((parts s ≢ []) × All IsScored (parts s))
unfolding status_class worst_of
status_class-eq-scored s = scored_parts (parts s)
  where
    scored_parts :
        (ps : List String)
        → (worst_of (map class_of ps) ≡ StatusClass.scored) ↔ ((ps ≢ []) × All IsScored ps)
    scored_parts [] = (λ h. cc, λ h. absurd (h.0 refl))
    scored_parts (p ∷ ps) = ground (arith, worst-scored (class_of p) ps)

-- The only reasons that a run which finished has.
pub ok-scored : status_class (some "ok") ≡ StatusClass.scored
unfolding status_class parts split_on worst_of class_of worst
ok-scored = refl

pub in_denominator-ok : (row : Row) → row.exit_reason ≡ some "ok" → in_denominator row ≡ true
unfolding in_denominator severity
in_denominator-ok row e =
    ap (λ (c : StatusClass). same_class c StatusClass.scored) (ap status_class e ∙ ok-scored)
