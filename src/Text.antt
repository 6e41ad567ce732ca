-- ===== src/Text.antt =====
-- What the program uses of Go's `strings` and `strconv`: `ToLower`, `HasSuffix` and `TrimSuffix`,
-- `HasPrefix` and `TrimPrefix`, and `ParseInt` in base 10 at 64 bits.
pub mod Numerals
pub mod Format
use Prim.Native.Char.{Char, char, code}
use Prim.Native.String.{char_at}
use gno_land_block_indexer.Prelude.{
  ℕ, ◌+◌, ◌-◌, ◌*◌, ◌^◌, Bool, ◌&&◌, ◌||◌, String, Option, none, some, ℤ, pos, sub_ℕ, leb, ltb,
  ◌==◌, if◌then◌else◌, str_eq,
}
use mathlib.Core.Option

-- `unicode.ToLower`, on ASCII and on the two other runes whose lower case is an ASCII letter
-- (U+0130 and U+212A). The rest of Unicode is left as it is: the program compares only with ASCII words.
lower_rune : Char → Char
lower_rune c =
    if leb b'A' (code c) && leb (code c) b'Z'
    then char_at "abcdefghijklmnopqrstuvwxyz" (code c - b'A')
    else if code c == 0x130
    then char 105 tt
    else if code c == 0x212a
    then char 107 tt
    else c

-- `strings.ToLower`
unfoldable pub to_lower : String → String
unfolding lower_rune
to_lower String.[] = String.[]
to_lower (String.◌∷◌ c s) = String.◌∷◌ (lower_rune c) (to_lower s)

-- What is left of the text before the suffix `suf`, if the text ends in it.
unfoldable pub cut_suffix : String → String → Option String
cut_suffix suf String.[] = if str_eq String.[] suf then some String.[] else none
cut_suffix suf (String.◌∷◌ c s) =
    if str_eq (String.◌∷◌ c s) suf
    then some String.[]
    else Option.map (String.◌∷◌ c) (cut_suffix suf s)

-- What is left of the text behind a first `/`, and the text itself if it begins otherwise.
unfoldable pub trim_slash : String → String
trim_slash String.[] = String.[]
trim_slash (String.◌∷◌ c s) = if code c == b'/' then s else String.◌∷◌ c s

-- The digits of a number, most significant first; `none` at any other byte.
unfoldable pub digits_from : ℕ → String → Option ℕ
digits_from acc String.[] = some acc
digits_from acc (String.◌∷◌ c s) =
    let rest = digits_from (acc * 10 + (code c - b'0')) s in
    if leb b'0' (code c) && leb (code c) b'9' then rest else none

-- `ParseUint`: there is at least one digit.
unfoldable pub parse_digits : String → Option ℕ
unfolding digits_from
parse_digits String.[] = none
parse_digits (String.◌∷◌ c s) = digits_from 0 (String.◌∷◌ c s)

-- The magnitude with its sign, where it fits 64 bits.
abbrev pub signed : Bool → ℕ → Option ℤ
signed neg n =
    if neg
    then (if leb n (2 ^ 63) then some (sub_ℕ 0 n) else none)
    else if ltb n (2 ^ 63)
    then some (pos n)
    else none

abbrev pub bind_digits : Bool → Option ℕ → Option ℤ
bind_digits neg none = none
bind_digits neg (some n) = signed neg n

-- `strconv.ParseInt(s, 10, 64)`; every error is `none`.
unfoldable pub parse_int : String → Option ℤ
unfolding parse_digits
parse_int String.[] = none
parse_int (String.◌∷◌ c s) =
    if code c == b'-'
    then bind_digits Bool.true (parse_digits s)
    else if code c == b'+'
    then bind_digits Bool.false (parse_digits s)
    else bind_digits Bool.false (parse_digits (String.◌∷◌ c s))
