-- ===== src/Ent/Mutation/Account.antt =====
-- `AccountMutation` of ent/mutation.go: the changes that a builder collects for one row of the table. A nil
-- pointer is `none`, the map of cleared fields a list. Edges to other tables, the old values and the
-- predicates of an update are left out.
use gno_land_block_indexer.Prelude.{Bool, false, String, Option, none, some, List, [], ◌∷◌}
use gno_land_block_indexer.Float64.{Float64, add}
use gno_land_block_indexer.Ent.Mutation.{
  Value, Assigned, assigned, unknown_field, assign, held, added, listed, switch, string_kind,
  float_kind,
}

pub record AccountMutation : Type 0 where
  pub id : Option String
  pub token : Option String
  pub amount : Option Float64
  pub add_amount : Option Float64

-- `newAccountMutation`
abbrev pub new_mutation : AccountMutation
new_mutation = record { id = none; token = none; amount = none; add_amount = none }

abbrev pub set_id : String → AccountMutation → AccountMutation
set_id v m = record m { id = some v }

abbrev pub set_token : String → AccountMutation → AccountMutation
set_token v m = record m { token = some v }

abbrev pub reset_token : AccountMutation → AccountMutation
reset_token m = record m { token = none }

abbrev pub set_amount : Float64 → AccountMutation → AccountMutation
set_amount v m = record m { amount = some v; add_amount = none }

abbrev pub increase_amount : Float64 → AccountMutation → AccountMutation
increase_amount v m = record m { add_amount = some (added add m.add_amount v) }

abbrev pub reset_amount : AccountMutation → AccountMutation
reset_amount m = record m { amount = none; add_amount = none }

-- The operations that take a field by its name; a `switch` of the source is a list of cases.

unfoldable pub set_field : String → Value → AccountMutation → Assigned AccountMutation
set_field name =
    switch name
      (("token", λ v m. assign string_kind v (λ x. set_token x m))
        ∷ ("amount", λ v m. assign float_kind v (λ x. set_amount x m))
        ∷ [])
      (λ v m. unknown_field)

unfoldable pub field : String → AccountMutation → Option Value
field name =
    switch name
      (("token", λ m. held string_kind m.token) ∷ ("amount", λ m. held float_kind m.amount) ∷ [])
      (λ m. none)

unfoldable pub add_field : String → Value → AccountMutation → Assigned AccountMutation
add_field name =
    switch name (("amount", λ v m. assign float_kind v (λ x. increase_amount x m)) ∷ [])
      (λ v m. unknown_field)

unfoldable pub added_field : String → AccountMutation → Option Value
added_field name = switch name (("amount", λ m. held float_kind m.add_amount) ∷ []) (λ m. none)

unfoldable pub field_cleared : String → AccountMutation → Bool
field_cleared name m = false

unfoldable pub clear_field : String → AccountMutation → Assigned AccountMutation
clear_field name m = unknown_field

unfoldable pub reset_field : String → AccountMutation → Assigned AccountMutation
reset_field name =
    switch name
      (("token", λ m. assigned (reset_token m)) ∷ ("amount", λ m. assigned (reset_amount m)) ∷ [])
      (λ m. unknown_field)

unfoldable pub fields : AccountMutation → List String
fields m = listed "token" m.token (listed "amount" m.amount [])

unfoldable pub added_fields : AccountMutation → List String
added_fields m = listed "amount" m.add_amount []

unfoldable pub cleared_fields : AccountMutation → List String
cleared_fields m = []
