-- ===== src/Numbers.antt =====
-- Go's signed int and float64. A float64 is its bit pattern, a number below 2 ^ 64.
use triovexa.Prelude.{
  ℕ, ◌+◌, ◌-◌, ◌*◌, ◌/◌, ◌%◌, ◌^◌, Bool, true, false, not, ◌&&◌, ltb, leb, ◌==◌, if◌then◌else◌, ◌≡◌,
  refl, arith,
}

-- `negsuc n` is -(n + 1).
pub data ℤ : Type 0 where
  pos : ℕ → ℤ
  negsuc : ℕ → ℤ

unfoldable pub ltb_int : ℤ → ℤ → Bool
ltb_int (pos a) (pos b) = ltb a b
ltb_int (pos a) (negsuc b) = false
ltb_int (negsuc a) (pos b) = true
ltb_int (negsuc a) (negsuc b) = ltb b a

pub ltb_int_asym : (a b : ℤ) → ltb_int a b ≡ true → ltb_int b a ≡ false
unfolding ltb_int
ltb_int_asym (pos a) (pos b) h = ground arith
ltb_int_asym (pos a) (negsuc b) h = ground arith
ltb_int_asym (negsuc a) (pos b) h = refl
ltb_int_asym (negsuc a) (negsuc b) h = ground arith

abbrev pub Float64 : Type 0
Float64 = ℕ

-- The sign bit, and the other bits.
is_negative : Float64 → Bool
is_negative x = leb (2 ^ 63) x

magnitude : Float64 → ℕ
magnitude x = x % 2 ^ 63

-- NaN: the exponent's bits are all set, and the fraction is not zero.
is_nan : Float64 → Bool
unfolding magnitude
is_nan x = ltb 0x7ff0000000000000 (magnitude x)

-- The order of IEEE 754: the bits of positive numbers are in order, and the two zeros are equal.
signed_lt : Bool → Bool → ℕ → ℕ → Bool
signed_lt false false a b = ltb a b
signed_lt false true a b = false
signed_lt true false a b = not (a == 0 && b == 0)
signed_lt true true a b = ltb b a

unfoldable pub float_lt : Float64 → Float64 → Bool
unfolding is_negative magnitude is_nan signed_lt
float_lt a b =
    not (is_nan a)
    && not (is_nan b)
    && signed_lt (is_negative a) (is_negative b) (magnitude a) (magnitude b)

signed_lt_asym : (s t : Bool) (a b : ℕ) → signed_lt s t a b ≡ true → signed_lt t s b a ≡ false
unfolding signed_lt
signed_lt_asym false false a b h = ground arith
signed_lt_asym false true a b h = ground arith
signed_lt_asym true false a b h = refl
signed_lt_asym true true a b h = ground arith

pub float_lt_asym : (a b : Float64) → float_lt a b ≡ true → float_lt b a ≡ false
unfolding float_lt
float_lt_asym a b h =
    ground (arith, signed_lt_asym (is_negative a) (is_negative b) (magnitude a) (magnitude b))

-- The whole part of a finite number by its exponent and its fraction with the leading one.
whole_part : ℕ → ℕ → ℕ
whole_part exponent significand =
    if leb 1075 exponent
    then significand * 2 ^ (exponent - 1075)
    else significand / 2 ^ (1075 - exponent)

negated : ℕ → ℤ
negated n = if n == 0 then pos 0 else negsuc (n - 1)

signed : Bool → ℕ → ℤ
unfolding negated
signed false n = pos n
signed true n = negated n

-- int(x) on amd64: the whole part, and the least int where that does not fit. Below 1 it is zero.
unfoldable pub int_of_float : Float64 → ℤ
unfolding is_negative magnitude whole_part signed
int_of_float x =
    let exponent = magnitude x / 2 ^ 52 in
    if leb 1086 exponent
    then negsuc (2 ^ 63 - 1)
    else if ltb exponent 1023
    then pos 0
    else signed (is_negative x) (whole_part exponent (2 ^ 52 + magnitude x % 2 ^ 52))
