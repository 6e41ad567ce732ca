-- ===== src/Ent/Mutation/Transaction/Fields.antt =====
-- The operations of `TransactionMutation` that take a field by its name; a `switch` of the source is a list of
-- cases.
use gno_land_block_indexer.Prelude.{Bool, String, Option, none, List, [], ◌∷◌, keep, any, str_eq}
use gno_land_block_indexer.Ent.Mutation.{
  Value, Assigned, assigned, unknown_field, assign, held, listed, switch, string_kind, int_kind,
  float_kind, bool_kind, time_kind, gas_fee_kind, messages_kind, response_kind,
}
use gno_land_block_indexer.Ent.Mutation.Transaction.{
  TransactionMutation, set_index, increase_index, reset_index, set_hash, reset_hash, set_success,
  reset_success, set_block_height, increase_block_height, reset_block_height, set_gas_wanted,
  increase_gas_wanted, reset_gas_wanted, set_gas_used, increase_gas_used, reset_gas_used, set_memo,
  clear_memo, reset_memo, set_gas_fee, clear_gas_fee, reset_gas_fee, set_messages, clear_messages,
  reset_messages, set_response, clear_response, reset_response, set_created_at, reset_created_at,
}

unfoldable pub set_field : String → Value → TransactionMutation → Assigned TransactionMutation
set_field name =
    switch name
      (("index", λ v m. assign int_kind v (λ x. set_index x m))
        ∷ ("hash", λ v m. assign string_kind v (λ x. set_hash x m))
        ∷ ("success", λ v m. assign bool_kind v (λ x. set_success x m))
        ∷ ("block_height", λ v m. assign int_kind v (λ x. set_block_height x m))
        ∷ ("gas_wanted", λ v m. assign float_kind v (λ x. set_gas_wanted x m))
        ∷ ("gas_used", λ v m. assign float_kind v (λ x. set_gas_used x m))
        ∷ ("memo", λ v m. assign string_kind v (λ x. set_memo x m))
        ∷ ("gas_fee", λ v m. assign gas_fee_kind v (λ x. set_gas_fee x m))
        ∷ ("messages", λ v m. assign messages_kind v (λ x. set_messages x m))
        ∷ ("response", λ v m. assign response_kind v (λ x. set_response x m))
        ∷ ("created_at", λ v m. assign time_kind v (λ x. set_created_at x m))
        ∷ [])
      (λ v m. unknown_field)

unfoldable pub field : String → TransactionMutation → Option Value
field name =
    switch name
      (("index", λ m. held int_kind m.index)
        ∷ ("hash", λ m. held string_kind m.hash)
        ∷ ("success", λ m. held bool_kind m.success)
        ∷ ("block_height", λ m. held int_kind m.block_height)
        ∷ ("gas_wanted", λ m. held float_kind m.gas_wanted)
        ∷ ("gas_used", λ m. held float_kind m.gas_used)
        ∷ ("memo", λ m. held string_kind m.memo)
        ∷ ("gas_fee", λ m. held gas_fee_kind m.gas_fee)
        ∷ ("messages", λ m. held messages_kind m.messages)
        ∷ ("response", λ m. held response_kind m.response)
        ∷ ("created_at", λ m. held time_kind m.created_at)
        ∷ [])
      (λ m. none)

unfoldable pub add_field : String → Value → TransactionMutation → Assigned TransactionMutation
add_field name =
    switch name
      (("index", λ v m. assign int_kind v (λ x. increase_index x m))
        ∷ ("block_height", λ v m. assign int_kind v (λ x. increase_block_height x m))
        ∷ ("gas_wanted", λ v m. assign float_kind v (λ x. increase_gas_wanted x m))
        ∷ ("gas_used", λ v m. assign float_kind v (λ x. increase_gas_used x m))
        ∷ [])
      (λ v m. unknown_field)

unfoldable pub added_field : String → TransactionMutation → Option Value
added_field name =
    switch name
      (("index", λ m. held int_kind m.add_index)
        ∷ ("block_height", λ m. held int_kind m.add_block_height)
        ∷ ("gas_wanted", λ m. held float_kind m.add_gas_wanted)
        ∷ ("gas_used", λ m. held float_kind m.add_gas_used)
        ∷ [])
      (λ m. none)

unfoldable pub field_cleared : String → TransactionMutation → Bool
field_cleared name m = any (str_eq name) m.cleared

unfoldable pub clear_field : String → TransactionMutation → Assigned TransactionMutation
clear_field name =
    switch name
      (("memo", λ m. assigned (clear_memo m))
        ∷ ("gas_fee", λ m. assigned (clear_gas_fee m))
        ∷ ("messages", λ m. assigned (clear_messages m))
        ∷ ("response", λ m. assigned (clear_response m))
        ∷ [])
      (λ m. unknown_field)

unfoldable pub reset_field : String → TransactionMutation → Assigned TransactionMutation
reset_field name =
    switch name
      (("index", λ m. assigned (reset_index m))
        ∷ ("hash", λ m. assigned (reset_hash m))
        ∷ ("success", λ m. assigned (reset_success m))
        ∷ ("block_height", λ m. assigned (reset_block_height m))
        ∷ ("gas_wanted", λ m. assigned (reset_gas_wanted m))
        ∷ ("gas_used", λ m. assigned (reset_gas_used m))
        ∷ ("memo", λ m. assigned (reset_memo m))
        ∷ ("gas_fee", λ m. assigned (reset_gas_fee m))
        ∷ ("messages", λ m. assigned (reset_messages m))
        ∷ ("response", λ m. assigned (reset_response m))
        ∷ ("created_at", λ m. assigned (reset_created_at m))
        ∷ [])
      (λ m. unknown_field)

unfoldable pub fields : TransactionMutation → List String
fields m = listed "index" m.index (
    listed "hash" m.hash (
      listed "success" m.success (
        listed "block_height" m.block_height (
          listed "gas_wanted" m.gas_wanted (
            listed "gas_used" m.gas_used (
              listed "memo" m.memo (
                listed "gas_fee" m.gas_fee (
                  listed "messages" m.messages
                    (listed "response" m.response (listed "created_at" m.created_at []))))))))))

unfoldable pub added_fields : TransactionMutation → List String
added_fields m = listed "index" m.add_index (
    listed "block_height" m.add_block_height
      (listed "gas_wanted" m.add_gas_wanted (listed "gas_used" m.add_gas_used [])))

unfoldable pub cleared_fields : TransactionMutation → List String
unfolding field_cleared
cleared_fields m = keep (λ n. field_cleared n m) ("memo" ∷ "gas_fee" ∷ "messages" ∷ "response" ∷ [])
