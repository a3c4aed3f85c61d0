-- ===== src/Floats.antt =====
-- The comparisons of float32 values, on their 32 bits: the sign, then the exponent and the fraction,
-- whose number grows with the absolute value, is 2139095040 for an infinity and larger for a NaN.
use recast.Prelude.{
  ℕ, ◌+◌, ◌%◌, ◌≡◌, Bool, true, false, not, ◌&&◌, ◌||◌, ltb, leb, ◌==◌, if◌then◌else◌, arith,
}

abbrev pub magnitude : ℕ → ℕ
magnitude bits = bits % 2147483648

abbrev pub is_negative : ℕ → Bool
is_negative bits = leb 2147483648 bits

abbrev pub is_nan : ℕ → Bool
is_nan bits = ltb 2139095040 (magnitude bits)

unfoldable pub is_finite : ℕ → Bool
is_finite bits = ltb (magnitude bits) 2139095040

-- `a < b`
unfoldable pub less : ℕ → ℕ → Bool
less a b =
    not (is_nan a || is_nan b)
    && (if is_negative a
        then (if is_negative b
            then ltb (magnitude b) (magnitude a)
            else ltb 0 (magnitude a + magnitude b))
        else not (is_negative b) && ltb (magnitude a) (magnitude b))

-- `a == b`; the two zeros are equal.
unfoldable pub equal : ℕ → ℕ → Bool
equal a b =
    not (is_nan a || is_nan b)
    && magnitude a == magnitude b
    && (magnitude a == 0
        || not (is_negative a) && not (is_negative b)
        || is_negative a && is_negative b)

-- Finite and not below zero, as the refinement asks.
abbrev pub IsDistance : ℕ → Type 0
IsDistance bits = (is_finite bits ≡ true) × (less bits 0 ≡ false)

pub less-IsDistance :
    (a b : ℕ) → IsDistance a → IsDistance b → less a b ≡ ltb (magnitude a) (magnitude b)
unfolding is_finite less
less-IsDistance a b h k = ground arith

pub equal-IsDistance :
    (a b : ℕ) → IsDistance a → IsDistance b → equal a b ≡ (magnitude a == magnitude b)
unfolding is_finite less equal
equal-IsDistance a b h k = ground arith

-- The infinities, and the tests for them and for a NaN.
abbrev pub infinity : ℕ
infinity = 2139095040

abbrev pub negative_infinity : ℕ
negative_infinity = 4286578688

abbrev pub is_infinite : ℕ → Bool
is_infinite bits = magnitude bits == infinity
