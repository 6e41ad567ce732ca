-- ===== src/Float64.antt =====
-- Go's `float64`, on the values that the program computes with. Each amount is a converted `int64`
-- or a sum of such, hence integral, and so it is modelled by an integer; a conversion and an
-- addition round to 53 significant bits, half to even, as IEEE 754 says. The gas amounts, which the
-- program only copies, are taken integral too. Infinities need more than 2 ^ 900 additions.
use gno_land_block_indexer.Prelude.{
  ℕ, zero, suc, ◌-◌, ◌*◌, ◌/◌, ◌%◌, ◌^◌, ◌<◌, ◌≡◌, refl, ◌∙◌, ap, Bool, ◌&&◌, ℤ, pos, negsuc,
  pos_part, neg_part, sub_ℕ, ◌+ℤ◌, ltb, leb, ◌==◌, ltb_ℤ, if◌then◌else◌, arith,
}

abbrev pub Float64 : Type 0
Float64 = ℤ

-- How many low bits do not fit the significand.
exponent : ℕ → ℕ → ℕ
exponent zero n = 0
exponent (suc fuel) n = let rest = suc (exponent fuel (n / 2)) in if ltb n (2 ^ 53) then 0 else rest

-- `q` or its successor, by what `r` is of a unit of `2 ^ suc e`.
round_up : ℕ → ℕ → ℕ → ℕ
round_up e q r = if ltb r (2 ^ e) then q else if r == 2 ^ e && q % 2 == 0 then q else suc q

scale : ℕ → ℕ → ℕ
scale zero n = n
scale (suc e) n = round_up e (n / 2 ^ suc e) (n % 2 ^ suc e) * 2 ^ suc e

-- Round to the nearest number with 53 significant bits. 971 is the largest exponent of a finite one.
abbrev pub max_exponent : ℕ
max_exponent = 971

unfoldable pub round_ℕ : ℕ → ℕ
unfolding exponent scale round_up
round_ℕ n = scale (exponent max_exponent n) n

unfoldable pub round : ℤ → Float64
round (pos n) = pos (round_ℕ n)
round (negsuc n) = sub_ℕ 0 (round_ℕ (suc n))

-- `float64(n)`
unfoldable pub of_int64 : ℤ → Float64
of_int64 n = round n

-- `a + b`
unfoldable pub add : Float64 → Float64 → Float64
add a b = round (a +ℤ b)

-- `int64(x)`, and `int(x)`; out of range it is what amd64 returns.
unfoldable pub to_int64 : Float64 → ℤ
to_int64 x =
    if ltb (pos_part x) (2 ^ 63) && leb (neg_part x) (2 ^ 63) then x else negsuc (2 ^ 63 - 1)

-- `x > 0`
abbrev pub is_positive : Float64 → Bool
is_positive x = ltb_ℤ (pos 0) x

-- Every integer of this range is a float64.
abbrev pub IsExact : ℤ → Type 0
IsExact z = (pos_part z < 2 ^ 53) × (neg_part z < 2 ^ 53)

exponent_of_lt : (fuel n : ℕ) → n < 2 ^ 53 → exponent (suc fuel) n ≡ 0
unfolding exponent
exponent_of_lt fuel n h = ground arith

scale-zero : (n : ℕ) → scale 0 n ≡ n
unfolding scale
scale-zero n = refl

round_ℕ_lem : (n : ℕ) → round_ℕ n ≡ scale (exponent max_exponent n) n
unfolding round_ℕ
round_ℕ_lem n = refl

round_ℕ_of_lt : (n : ℕ) → n < 2 ^ 53 → round_ℕ n ≡ n
round_ℕ_of_lt n h = round_ℕ_lem n ∙ ap (λ e. scale e n) (exponent_of_lt 970 n h) ∙ scale-zero n

pub round_of_IsExact : (z : ℤ) → IsExact z → round z ≡ z
unfolding round
round_of_IsExact (pos n) h = ground (arith, round_ℕ_of_lt n)
round_of_IsExact (negsuc n) h = ground (arith, round_ℕ_of_lt (suc n))

-- A sum of amounts that is smaller than 2 ^ 53 in magnitude is exact.
pub add-eq_exact : (a b : ℤ) → IsExact (a +ℤ b) → add a b ≡ a +ℤ b
unfolding add
add-eq_exact a b h = round_of_IsExact (a +ℤ b) h

in_range : (z : ℤ) → IsExact z → to_int64 z ≡ z
unfolding to_int64
in_range z h = ground arith

pub to_int64-of_int64 : (z : ℤ) → IsExact z → to_int64 (of_int64 z) ≡ z
unfolding of_int64
to_int64-of_int64 z h = rw (round_of_IsExact z h) (in_range z h)

rounds_to_even : add (pos (2 ^ 53)) (pos 1) ≡ pos (2 ^ 53)
unfolding add round round_ℕ ◌+ℤ◌
rounds_to_even = refl
