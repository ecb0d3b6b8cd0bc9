-- ===== src/RunId/Split.antt =====
-- run_id.py: splitting at the delimiter what was joined with it.
use model_eval.Prelude.{◌≡◌, refl, Bool, false, List, [], ◌∷◌, ◌++◌, arith, ◌==◌, All, some}
use model_eval.RunId.Digits.{Text}
use model_eval.RunId.{dash, has_delim, join, split, take_back, starts_with}

abbrev pub ends_in_dash : Text → Bool
ends_in_dash [] = false
ends_in_dash (c ∷ []) = c == dash
ends_in_dash (c ∷ d ∷ s) = ends_in_dash (d ∷ s)

-- A part that a delimiter behind it leaves whole.
abbrev pub IsClean : Text → Type 0
IsClean p = (has_delim p ≡ false) × (ends_in_dash p ≡ false)

pub split_part : (p rest : Text) → IsClean p → split (p ++ dash ∷ dash ∷ rest) ≡ p ∷ split rest
split_part [] rest h = refl
split_part (a ∷ []) rest h = ground arith
split_part (a ∷ b ∷ s) rest h = ground (arith, split_part (b ∷ s) rest)

pub split_last : (p : Text) → has_delim p ≡ false → split p ≡ p ∷ []
split_last [] h = refl
split_last (a ∷ []) h = refl
split_last (a ∷ b ∷ s) h = ground (arith, split_last (b ∷ s))

-- Clean parts and a last part without the delimiter come back as they were.
pub split-join :
    (ps : List Text) (last : Text)
    → All IsClean ps
    → has_delim last ≡ false
    → split (join (ps ++ last ∷ [])) ≡ ps ++ last ∷ []
split-join [] last h k = split_last last k
split-join (p ∷ []) last h k = ground (arith, split_part p last h.0, split_last last k)
split-join (p ∷ q ∷ ps) last h k =
    ground (arith, split_part p (join (q ∷ (ps ++ last ∷ []))) h.0, split-join (q ∷ ps) last h.1 k)

pub take_back-append :
    (front : List Text) (task rep : Text)
    → take_back ((front ++ task ∷ []) ++ rep ∷ []) ≡ some (front, task, rep)
take_back-append [] task rep = refl
take_back-append (p ∷ []) task rep = refl
take_back-append (p ∷ q ∷ front) task rep = ground (arith, take_back-append (q ∷ front) task rep)

-- A prefix without the delimiter does not see past one.
pub starts_with-delim :
    (s p rest : Text)
    → has_delim p ≡ false
    → starts_with (s ++ dash ∷ dash ∷ rest) p ≡ starts_with (s ++ dash ∷ dash ∷ []) p
starts_with-delim [] [] rest h = refl
starts_with-delim [] (c ∷ []) rest h = refl
starts_with-delim [] (c ∷ d ∷ p) rest h = ground arith
starts_with-delim (a ∷ s) [] rest h = refl
starts_with-delim (a ∷ s) (c ∷ []) rest h = ground (arith, starts_with-delim s [] rest)
starts_with-delim (a ∷ s) (c ∷ d ∷ p) rest h = ground (arith, starts_with-delim s (d ∷ p) rest)
