-- ===== src/Ent/Mutation/Transfer.antt =====
-- `TransferMutation` of ent/mutation.go: the changes that a builder collects for one row of the table. A nil
-- pointer is `none`, the map of cleared fields a list. Edges to other tables, the old values and the
-- predicates of an update are left out.
use gno_land_block_indexer.Prelude.{
  Bool, not, String, Option, none, some, List, [], ◌∷◌, ℤ, keep, any, str_eq,
}
use gno_land_block_indexer.Float64.{Float64, add}
use gno_land_block_indexer.Model.{Time}
use gno_land_block_indexer.Ent.Mutation.{
  Value, Assigned, assigned, unknown_field, assign, held, added, listed, switch, string_kind,
  float_kind, time_kind,
}

pub record TransferMutation : Type 0 where
  pub id : Option ℤ
  pub hash : Option String
  pub func : Option String
  pub from_address : Option String
  pub to_address : Option String
  pub token : Option String
  pub amount : Option Float64
  pub add_amount : Option Float64
  pub denom : Option String
  pub created_at : Option Time
  pub cleared : List String

-- `newTransferMutation`
abbrev pub new_mutation : TransferMutation
new_mutation = record {
  id = none;
  hash = none;
  func = none;
  from_address = none;
  to_address = none;
  token = none;
  amount = none;
  add_amount = none;
  denom = none;
  created_at = none;
  cleared = [];
}

abbrev pub set_id : ℤ → TransferMutation → TransferMutation
set_id v m = record m { id = some v }

abbrev pub set_hash : String → TransferMutation → TransferMutation
set_hash v m = record m { hash = some v }

abbrev pub reset_hash : TransferMutation → TransferMutation
reset_hash m = record m { hash = none }

abbrev pub set_func : String → TransferMutation → TransferMutation
set_func v m = record m { func = some v }

abbrev pub reset_func : TransferMutation → TransferMutation
reset_func m = record m { func = none }

abbrev pub set_from_address : String → TransferMutation → TransferMutation
set_from_address v m = record m { from_address = some v }

abbrev pub clear_from_address : TransferMutation → TransferMutation
clear_from_address m = record m { from_address = none; cleared = "from_address" ∷ m.cleared }

abbrev pub reset_from_address : TransferMutation → TransferMutation
reset_from_address m = record m {
  from_address = none;
  cleared = keep (λ n. not (str_eq n "from_address")) m.cleared;
}

abbrev pub set_to_address : String → TransferMutation → TransferMutation
set_to_address v m = record m { to_address = some v }

abbrev pub clear_to_address : TransferMutation → TransferMutation
clear_to_address m = record m { to_address = none; cleared = "to_address" ∷ m.cleared }

abbrev pub reset_to_address : TransferMutation → TransferMutation
reset_to_address m = record m {
  to_address = none;
  cleared = keep (λ n. not (str_eq n "to_address")) m.cleared;
}

abbrev pub set_token : String → TransferMutation → TransferMutation
set_token v m = record m { token = some v }

abbrev pub reset_token : TransferMutation → TransferMutation
reset_token m = record m { token = none }

abbrev pub set_amount : Float64 → TransferMutation → TransferMutation
set_amount v m = record m { amount = some v; add_amount = none }

abbrev pub increase_amount : Float64 → TransferMutation → TransferMutation
increase_amount v m = record m { add_amount = some (added add m.add_amount v) }

abbrev pub reset_amount : TransferMutation → TransferMutation
reset_amount m = record m { amount = none; add_amount = none }

abbrev pub set_denom : String → TransferMutation → TransferMutation
set_denom v m = record m { denom = some v }

abbrev pub reset_denom : TransferMutation → TransferMutation
reset_denom m = record m { denom = none }

abbrev pub set_created_at : Time → TransferMutation → TransferMutation
set_created_at v m = record m { created_at = some v }

abbrev pub reset_created_at : TransferMutation → TransferMutation
reset_created_at m = record m { created_at = none }

-- The operations that take a field by its name; a `switch` of the source is a list of cases.

unfoldable pub set_field : String → Value → TransferMutation → Assigned TransferMutation
set_field name =
    switch name
      (("hash", λ v m. assign string_kind v (λ x. set_hash x m))
        ∷ ("func", λ v m. assign string_kind v (λ x. set_func x m))
        ∷ ("from_address", λ v m. assign string_kind v (λ x. set_from_address x m))
        ∷ ("to_address", λ v m. assign string_kind v (λ x. set_to_address x m))
        ∷ ("token", λ v m. assign string_kind v (λ x. set_token x m))
        ∷ ("amount", λ v m. assign float_kind v (λ x. set_amount x m))
        ∷ ("denom", λ v m. assign string_kind v (λ x. set_denom x m))
        ∷ ("created_at", λ v m. assign time_kind v (λ x. set_created_at x m))
        ∷ [])
      (λ v m. unknown_field)

unfoldable pub field : String → TransferMutation → Option Value
field name =
    switch name
      (("hash", λ m. held string_kind m.hash)
        ∷ ("func", λ m. held string_kind m.func)
        ∷ ("from_address", λ m. held string_kind m.from_address)
        ∷ ("to_address", λ m. held string_kind m.to_address)
        ∷ ("token", λ m. held string_kind m.token)
        ∷ ("amount", λ m. held float_kind m.amount)
        ∷ ("denom", λ m. held string_kind m.denom)
        ∷ ("created_at", λ m. held time_kind m.created_at)
        ∷ [])
      (λ m. none)

unfoldable pub add_field : String → Value → TransferMutation → Assigned TransferMutation
add_field name =
    switch name (("amount", λ v m. assign float_kind v (λ x. increase_amount x m)) ∷ [])
      (λ v m. unknown_field)

unfoldable pub added_field : String → TransferMutation → Option Value
added_field name = switch name (("amount", λ m. held float_kind m.add_amount) ∷ []) (λ m. none)

unfoldable pub field_cleared : String → TransferMutation → Bool
field_cleared name m = any (str_eq name) m.cleared

unfoldable pub clear_field : String → TransferMutation → Assigned TransferMutation
clear_field name =
    switch name
      (("from_address", λ m. assigned (clear_from_address m))
        ∷ ("to_address", λ m. assigned (clear_to_address m))
        ∷ [])
      (λ m. unknown_field)

unfoldable pub reset_field : String → TransferMutation → Assigned TransferMutation
reset_field name =
    switch name
      (("hash", λ m. assigned (reset_hash m))
        ∷ ("func", λ m. assigned (reset_func m))
        ∷ ("from_address", λ m. assigned (reset_from_address m))
        ∷ ("to_address", λ m. assigned (reset_to_address m))
        ∷ ("token", λ m. assigned (reset_token m))
        ∷ ("amount", λ m. assigned (reset_amount m))
        ∷ ("denom", λ m. assigned (reset_denom m))
        ∷ ("created_at", λ m. assigned (reset_created_at m))
        ∷ [])
      (λ m. unknown_field)

unfoldable pub fields : TransferMutation → List String
fields m = listed "hash" m.hash (
    listed "func" m.func (
      listed "from_address" m.from_address (
        listed "to_address" m.to_address (
          listed "token" m.token (
            listed "amount" m.amount
              (listed "denom" m.denom (listed "created_at" m.created_at [])))))))

unfoldable pub added_fields : TransferMutation → List String
added_fields m = listed "amount" m.add_amount []

unfoldable pub cleared_fields : TransferMutation → List String
unfolding field_cleared
cleared_fields m = keep (λ n. field_cleared n m) ("from_address" ∷ "to_address" ∷ [])
