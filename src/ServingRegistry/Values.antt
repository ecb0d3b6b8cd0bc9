-- ===== src/ServingRegistry/Values.antt =====
-- runner/serving_registry.py: the values of a row's fields, compared as Python compares them. A float is
-- not modelled.
use model_eval.Prelude.{
  Key, ◌≡◌, ◌↔◌, Bool, true, false, Option, none, some, String, arith, string_key, ◌=?◌, eq_iff,
}
use model_eval.Prelude.Int.{ℤ, pos, same_ℤ, same_ℤ_iff}

pub data Scalar : Type 0 where
  null : Scalar
  flag : Bool → Scalar
  int : ℤ → Scalar
  text : String → Scalar

-- What a value is up to `==`: `True` is the number 1 and `False` is 0.
pub data Shape : Type 0 where
  nothing : Shape
  number : ℤ → Shape
  word : String → Shape

abbrev pub shape_of : Scalar → Shape
shape_of Scalar.null = nothing
shape_of (Scalar.flag true) = number (pos 1)
shape_of (Scalar.flag false) = number (pos 0)
shape_of (Scalar.int z) = number z
shape_of (Scalar.text s) = word s

abbrev pub same_shape : Shape → Shape → Bool
same_shape nothing nothing = true
same_shape (number a) (number b) = same_ℤ a b
same_shape (word a) (word b) = a =? b
same_shape _ _ = false

-- `a == b`
abbrev pub same_scalar : Scalar → Scalar → Bool
same_scalar a b = same_shape (shape_of a) (shape_of b)

abbrev pub unknown : String
unknown = "unknown"

-- `a == UNKNOWN`
abbrev pub is_unknown : Scalar → Bool
is_unknown a = same_scalar a (Scalar.text unknown)

-- The number of a value that Python orders with numbers.
abbrev pub number_of : Scalar → Option ℤ
number_of a = elim (shape_of a) [ nothing ↦ none | number z ↦ some z | word s ↦ none ]

pub same_shape_iff : (a b : Shape) → (same_shape a b ≡ true) ↔ (a ≡ b)
same_shape_iff nothing nothing = ground arith
same_shape_iff nothing (number b) = ground arith
same_shape_iff nothing (word b) = ground arith
same_shape_iff (number a) nothing = ground arith
same_shape_iff (number a) (number b) = ground (arith, same_ℤ_iff a b)
same_shape_iff (number a) (word b) = ground arith
same_shape_iff (word a) nothing = ground arith
same_shape_iff (word a) (number b) = ground arith
same_shape_iff (word a) (word b) = ground (arith, eq_iff a b)

instance abbrev pub shape_key : Key Shape
shape_key = record { same = same_shape; same_iff = same_shape_iff }
