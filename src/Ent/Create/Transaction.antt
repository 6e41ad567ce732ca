-- ===== src/Ent/Create/Transaction.antt =====
-- `TransactionCreate` and `TransactionCreateBulk` of ent/transaction_create.go: the defaults, the checks and the statement.
use gno_land_block_indexer.Prelude.{false, Option, none, List, [], map}
use gno_land_block_indexer.Model.{Time}
use gno_land_block_indexer.Ent.Error.{Error, Result}
use gno_land_block_indexer.Ent.Mutation.{
  string_kind, int_kind, float_kind, bool_kind, time_kind, gas_fee_kind, messages_kind,
  response_kind,
}
use gno_land_block_indexer.Ent.Create.{
  CreateSpec, required, validated, column, checked, if_unset, chain, is_named,
}
use gno_land_block_indexer.Ent.Mutation.Transaction.{
  TransactionMutation, set_success, set_created_at,
}

-- The default time is the one at which the program started.
abbrev pub defaults : Time → TransactionMutation → TransactionMutation
defaults start m =
    if_unset (λ m. m.created_at) (set_created_at start)
      (if_unset (λ m. m.success) (set_success false) m)

unfoldable pub check : TransactionMutation → Option Error
check m = required "index" m.index (
    required "hash" m.hash (
      validated "hash" is_named m.hash (
        required "success" m.success (
          required "block_height" m.block_height (
            required "gas_wanted" m.gas_wanted
              (required "gas_used" m.gas_used (required "created_at" m.created_at none)))))))

unfoldable pub create_spec : TransactionMutation → CreateSpec
create_spec m = record {
  table = "transactions";
  id_column = "id";
  id = none;
  fields = column int_kind "index" m.index (
      column string_kind "hash" m.hash (
        column bool_kind "success" m.success (
          column int_kind "block_height" m.block_height (
            column float_kind "gas_wanted" m.gas_wanted (
              column float_kind "gas_used" m.gas_used (
                column string_kind "memo" m.memo (
                  column gas_fee_kind "gas_fee" m.gas_fee (
                    column messages_kind "messages" m.messages (
                      column response_kind "response" m.response
                        (column time_kind "created_at" m.created_at []))))))))));
  edges = column int_kind "block_transactions" m.block [];
}

unfoldable pub sql_save : TransactionMutation → Result CreateSpec
unfolding check create_spec
sql_save m = checked (check m) (create_spec m)

unfoldable pub save : Time → TransactionMutation → Result CreateSpec
unfolding sql_save check create_spec
save now m = sql_save (defaults now m)

unfoldable pub save_bulk : Time → List TransactionMutation → Result (List CreateSpec)
unfolding check create_spec
save_bulk now ms = chain check create_spec (map (defaults now) ms)
