-- ===== src/RunId/Digits.antt =====
-- Python's `str(n)` and `int(s)` at a number that is not negative, on lists of code points.
use Prim.Native.Char.{code}
use model_eval.Prelude.{
  ℕ, zero, suc, ◌+◌, ◌-◌, ◌*◌, ◌/◌, ◌%◌, ◌≤◌, ◌<◌, String, ◌≡◌, ◌≢◌, refl, ◌&&◌, Option, none, some,
  List, [], ◌∷◌, arith, ltb, leb, if◌then◌else◌, All, Bool-cases, inl, inr, ◌∙◌,
}

abbrev pub Text : Type 0
Text = List ℕ

abbrev pub codes : String → Text
codes String.[] = []
codes (String.◌∷◌ c s) = code c ∷ codes s

-- The digits of a number in front of a text. `fuel` bounds how many; `n + 1` is enough.
unfoldable pub digits : ℕ → ℕ → Text → Text
digits zero n out = out
digits (suc fuel) n out =
    let rest = digits fuel (n / 10) ((b'0' + n % 10) ∷ out) in
    if ltb n 10 then (b'0' + n) ∷ out else rest

unfoldable pub format : ℕ → Text
unfolding digits
format n = digits (suc n) n []

-- `none` at a code point that is no digit.
unfoldable pub scan : Text → ℕ → Option ℕ
scan [] n = some n
scan (c ∷ s) n = if leb b'0' c && leb c b'9' then scan s (n * 10 + (c - b'0')) else none

unfoldable pub parse_digits : Text → Option ℕ
unfolding scan
parse_digits [] = none
parse_digits (c ∷ s) = scan (c ∷ s) 0

-- Every code point is a digit.
abbrev pub AreDigits : Text → Type 0
AreDigits = All (λ c. (b'0' ≤ c) × (c ≤ b'9'))

pub digits-AreDigits : (fuel n : ℕ) (out : Text) → AreDigits out → AreDigits (digits fuel n out)
unfolding digits
digits-AreDigits zero n out h = h
digits-AreDigits (suc fuel) n out h =
    ground (arith, digits-AreDigits fuel (n / 10) ((b'0' + n % 10) ∷ out))

digit-value :
    (d : ℕ) (out : Text) (n : ℕ) → d < 10 → scan ((b'0' + d) ∷ out) n ≡ scan out (n * 10 + d)
unfolding scan
digit-value d out n h = ground arith

-- Reading the digits of `n` from `0` gives `n`, and goes on from there.
pub scan-digits : (fuel n : ℕ) (out : Text) → n < fuel → scan (digits fuel n out) 0 ≡ scan out n
unfolding digits scan
scan-digits zero n out h = elim h [ ]
scan-digits (suc fuel) n out h = elim (Bool-cases (ltb n 10)) [
  | inl small ↦ rw small (ground (arith, digit-value n out 0))
  | inr large ↦ rw large (
      ground (
        arith,
        scan-digits fuel (n / 10) ((b'0' + n % 10) ∷ out),
        digit-value (n % 10) out (n / 10),
      ))
]

digits-ne-nil : (fuel n : ℕ) (out : Text) → n < fuel → digits fuel n out ≢ []
unfolding digits
digits-ne-nil zero n out h = elim h [ ]
digits-ne-nil (suc fuel) n out h =
    ground (arith, digits-ne-nil fuel (n / 10) ((b'0' + n % 10) ∷ out))

parse_digits-scan : (s : Text) → s ≢ [] → parse_digits s ≡ scan s 0
unfolding parse_digits
parse_digits-scan [] h = absurd (h refl)
parse_digits-scan (c ∷ s) h = refl

pub format-AreDigits : (n : ℕ) → AreDigits (format n)
unfolding format
format-AreDigits n = digits-AreDigits (suc n) n [] tt

-- Reading what was printed gives the number back.
pub parse_digits-format : (n : ℕ) → parse_digits (format n) ≡ some n
unfolding format parse_digits
parse_digits-format n =
    parse_digits-scan (digits (suc n) n []) (digits-ne-nil (suc n) n [] (omega arith))
    ∙ scan-digits (suc n) n [] (omega arith)
