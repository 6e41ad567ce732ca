-- ===== src/Text/Numerals.antt =====
-- `ParseInt` against the value that a numeral denotes.
use Prim.Native.Char.{Char, char, code}
use native.Mathlib.Nat.{pow-suc}
use gno_land_block_indexer.Prelude.{
  suc, Bool-cases, ◌==◌, ℕ, ◌+◌, ◌-◌, ◌*◌, ◌^◌, ◌≤◌, ◌≡◌, Bool, true, false, String, Option, none,
  some, ℤ, pos, IsInt64, ltb, leb, if◌then◌else◌, arith, sub_ℕ, ap, inl, inr,
}
use gno_land_block_indexer.Text.{digits_from, parse_digits, parse_int, bind_digits}

abbrev pub minus : Char
minus = char b'-' tt

abbrev pub IsDigit : Char → Type 0
IsDigit c = (b'0' ≤ code c) × (code c ≤ b'9')

abbrev pub AllDigits : String → Type 0
AllDigits String.[] = Unit
AllDigits (String.◌∷◌ c s) = IsDigit c × AllDigits s

-- How many characters a text has.
abbrev pub size : String → ℕ
size String.[] = 0
size (String.◌∷◌ c s) = suc (size s)

-- The number that a row of digits denotes: each digit times its power of ten.
abbrev pub value : String → ℕ
value String.[] = 0
value (String.◌∷◌ c s) = (code c - b'0') * 10 ^ size s + value s

pow_step : (n : ℕ) → 10 ^ suc n ≡ 10 * 10 ^ n
pow_step n = rw pow-suc (omega arith)

carry_lem :
    (acc d : ℕ) (s : String)
    → (acc * 10 + d) * 10 ^ size s + value s ≡ acc * 10 ^ suc (size s) + (d * 10 ^ size s + value s)
carry_lem acc d s = rw (pow_step (size s)) (omega arith)

digits_from-value :
    (acc : ℕ) (s : String) → AllDigits s → digits_from acc s ≡ some (acc * 10 ^ size s + value s)
unfolding digits_from
digits_from-value acc String.[] h = ap some (omega arith)
digits_from-value acc (String.◌∷◌ c s) h =
    let d = code c - b'0' in
    ground (arith, digits_from-value (acc * 10 + d) s h.1, carry_lem acc d s)

signed-IsInt64 : (neg : Bool) (o : Option ℕ) {z : ℤ} → bind_digits neg o ≡ some z → IsInt64 z
signed-IsInt64 neg none e = ground arith
signed-IsInt64 true (some n) e = ground arith
signed-IsInt64 false (some n) e = ground arith

-- Whatever `ParseInt` returns fits 64 bits.
pub parse_int-IsInt64 : (s : String) {z : ℤ} → parse_int s ≡ some z → IsInt64 z
unfolding parse_int
parse_int-IsInt64 String.[] e = cc
parse_int-IsInt64 (String.◌∷◌ c s) e = elim (Bool-cases (code c == b'-')) [
  | inl minus ↦ signed-IsInt64 true (parse_digits s) (ground arith)
  | inr other ↦ elim (Bool-cases (code c == b'+')) [
    | inl plus ↦ signed-IsInt64 false (parse_digits s) (ground arith)
    | inr digit ↦ signed-IsInt64 false (parse_digits (String.◌∷◌ c s)) (ground arith)
  ]
]

-- A non-empty row of digits is read as the number that it denotes if that fits, and refused if not;
-- with a minus sign before it, as the negative of that number.
pub parse_int-value :
    (c : Char) (s : String)
    → IsDigit c
    → AllDigits s
    → let row = String.◌∷◌ c s in
      (parse_int row ≡ (if ltb (value row) (2 ^ 63) then some (pos (value row)) else none))
      × (parse_int (String.◌∷◌ minus row)
          ≡ (if leb (value row) (2 ^ 63) then some (sub_ℕ 0 (value row)) else none))
unfolding parse_int parse_digits
parse_int-value c s d h = (
  ground (arith, digits_from-value 0 (String.◌∷◌ c s) (d, h)),
  ground (arith, digits_from-value 0 (String.◌∷◌ c s) (d, h)),
)
