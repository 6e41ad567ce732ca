-- ===== src/Text/Format.antt =====
-- `fmt.Sprintf("%d", n)`, which `strconv.Itoa` agrees with.
use Prim.Native.Char.{Char, code}
use Prim.Native.String.{char_at, ◌++◌ as ◌+++◌}
use gno_land_block_indexer.Prelude.{
  ℕ, zero, suc, ◌+◌, ◌-◌, ◌*◌, ◌/◌, ◌%◌, ◌<◌, ◌≡◌, refl, ◌∙◌, String, some, ℤ, pos, negsuc, ltb,
  leb, true, if◌then◌else◌, arith, Bool-cases, inl, inr, ltb→lt,
}
use gno_land_block_indexer.Text.{digits_from, parse_digits}

abbrev digit : ℕ → Char
digit d = char_at "0123456789" d

-- The digits of a number before a text. A number has fewer digits than its successor counts.
put_digits : ℕ → ℕ → String → String
put_digits zero n rest = rest
put_digits (suc fuel) n rest =
    let more = put_digits fuel (n / 10) (String.◌∷◌ (digit (n % 10)) rest) in
    if ltb n 10 then String.◌∷◌ (digit n) rest else more

unfoldable pub format_int : ℤ → String
unfolding put_digits
format_int (pos n) = put_digits (suc n) n String.[]
format_int (negsuc n) = "-" +++ put_digits (suc (suc n)) (suc n) String.[]

code-digit : (d : ℕ) → d < 10 → code (digit d) ≡ 48 + d
code-digit zero h = refl
code-digit (suc zero) h = refl
code-digit (suc (suc zero)) h = refl
code-digit (suc (suc (suc zero))) h = refl
code-digit (suc (suc (suc (suc zero)))) h = refl
code-digit (suc (suc (suc (suc (suc zero))))) h = refl
code-digit (suc (suc (suc (suc (suc (suc zero)))))) h = refl
code-digit (suc (suc (suc (suc (suc (suc (suc zero))))))) h = refl
code-digit (suc (suc (suc (suc (suc (suc (suc (suc zero)))))))) h = refl
code-digit (suc (suc (suc (suc (suc (suc (suc (suc (suc zero))))))))) h = refl
code-digit (suc (suc (suc (suc (suc (suc (suc (suc (suc (suc d)))))))))) h = omega (arith, h)

digits_from-digit :
    (acc d n : ℕ) (rest : String)
    → d < 10
    → acc * 10 + d ≡ n
    → digits_from acc (String.◌∷◌ (digit d) rest) ≡ digits_from n rest
unfolding digits_from
digits_from-digit acc d n rest h e =
    let low : leb 48 (48 + d) ≡ true = ground arith in
    let high : leb (48 + d) 57 ≡ true = ground arith in
    let back : acc * 10 + (48 + d - 48) ≡ n = omega arith in
    rw (code-digit d h) (rw (low, high) (rw back refl))

digits_from-put_digits :
    (fuel n : ℕ) (rest : String)
    → n < fuel
    → digits_from 0 (put_digits fuel n rest) ≡ digits_from n rest
unfolding put_digits
digits_from-put_digits zero n rest h = ground (arith, h)
digits_from-put_digits (suc fuel) n rest h = elim (Bool-cases (ltb n 10)) [
  | inl small ↦ rw small (digits_from-digit 0 n n rest (ltb→lt n 10 small) (omega arith))
  | inr big ↦ rw big (
      digits_from-put_digits fuel (n / 10) (String.◌∷◌ (digit (n % 10)) rest) (ground arith)
      ∙ digits_from-digit (n / 10) (n % 10) n rest (ground arith) (ground arith))
]

-- A number's text is never empty.
put_digits-parse :
    (fuel n : ℕ) (c : Char) (rest : String)
    → parse_digits (put_digits fuel n (String.◌∷◌ c rest))
      ≡ digits_from 0 (put_digits fuel n (String.◌∷◌ c rest))
unfolding put_digits parse_digits
put_digits-parse zero n c rest = refl
put_digits-parse (suc fuel) n c rest = elim (Bool-cases (ltb n 10)) [
  | inl small ↦ rw small refl
  | inr big ↦ rw big (put_digits-parse fuel (n / 10) (digit (n % 10)) (String.◌∷◌ c rest))
]

-- A number that was printed and is not negative is read back.
pub parse_digits-format_int : (n : ℕ) → parse_digits (format_int (pos n)) ≡ some n
unfolding parse_digits format_int put_digits digits_from
parse_digits-format_int n = elim (Bool-cases (ltb n 10)) [
  | inl small ↦ rw small (digits_from-digit 0 n n String.[] (ltb→lt n 10 small) (omega arith))
  | inr big ↦ rw big (
      put_digits-parse n (n / 10) (digit (n % 10)) String.[]
      ∙ (digits_from-put_digits n (n / 10) (String.◌∷◌ (digit (n % 10)) String.[]) (ground arith)
          ∙ digits_from-digit (n / 10) (n % 10) n String.[] (ground arith) (ground arith)))
]
