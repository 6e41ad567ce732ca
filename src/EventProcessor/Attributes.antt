-- ===== src/EventProcessor/Attributes.antt =====
-- The loop over an event's attributes in `parseAndProcessTransactions`.
pub mod Laws
use gno_land_block_indexer.Prelude.{
  Bool, String, Option, none, some, List, [], ◌∷◌, ℤ, pos, if◌then◌else◌, str_eq,
}
use gno_land_block_indexer.Text.{parse_int}
use gno_land_block_indexer.Model.{Attr}

-- `fromAddress`, `toAddress` and `numValue`
pub record Parsed : Type 0 where
  pub from_address : String
  pub to_address : String
  pub num_value : ℤ

abbrev pub unparsed : Parsed
unparsed = record { from_address = ""; to_address = ""; num_value = pos 0 }

abbrev with_value : Parsed → Option ℤ → Option Parsed
with_value p none = none
with_value p (some n) = some (record p { num_value = n })

unfoldable pub read_attr : Parsed → Attr → Option Parsed
read_attr p a =
    if str_eq a.key "from"
    then some (record p { from_address = a.value })
    else if str_eq a.key "to"
    then some (record p { to_address = a.value })
    else if str_eq a.key "value"
    then with_value p (parse_int a.value)
    else some p

abbrev pub then_read : Option Parsed → (Parsed → Option Parsed) → Option Parsed
then_read none rest = none
then_read (some p) rest = rest p

-- `none` is the early return on a value that is no number.
unfoldable pub read_attrs : Parsed → List Attr → Option Parsed
read_attrs p [] = some p
read_attrs p (a ∷ as') = then_read (read_attr p a) (λ q. read_attrs q as')
