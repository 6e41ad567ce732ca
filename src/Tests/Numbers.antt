-- ===== src/Tests/Numbers.antt =====
-- Numerals and amounts at concrete numbers.
use Prim.Native.Char.{char}
use gno_land_block_indexer.Prelude.{◌≡◌, refl, String, some, pos, negsuc, ◌+ℤ◌, IsInt64, arith}
use gno_land_block_indexer.Float64.{add, IsExact, add-eq_exact}
use gno_land_block_indexer.Text.{parse_int}
use gno_land_block_indexer.Text.Numerals.{minus, parse_int-IsInt64, parse_int-value}

reads_number : parse_int "-42" ≡ some (negsuc 41)
unfolding parse_int gno_land_block_indexer.Text.parse_digits gno_land_block_indexer.Text.digits_from
reads_number = refl

number_in_range : IsInt64 (negsuc 41)
number_in_range = parse_int-IsInt64 "-42" reads_number

abbrev four : String
four = String.◌∷◌ (char b'4' tt) "2"

digits_read :
    (parse_int four ≡ some (pos 42)) × (parse_int (String.◌∷◌ minus four) ≡ some (negsuc 41))
digits_read =
    parse_int-value (char b'4' tt) "2" (omega arith, omega arith) ((omega arith, omega arith), tt)

exact : IsExact (pos 70 +ℤ negsuc 29)
unfolding ◌+ℤ◌
exact = (omega arith, omega arith)

sum_exact : add (pos 70) (negsuc 29) ≡ pos 70 +ℤ negsuc 29
sum_exact = add-eq_exact (pos 70) (negsuc 29) exact
