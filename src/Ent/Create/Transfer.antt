-- ===== src/Ent/Create/Transfer.antt =====
-- `TransferCreate` and `TransferCreateBulk` of ent/transfer_create.go: the defaults, the checks and the statement.
use gno_land_block_indexer.Prelude.{Option, none, List, [], map}
use gno_land_block_indexer.Float64.{is_positive}
use gno_land_block_indexer.Model.{Time}
use gno_land_block_indexer.Ent.Error.{Error, Result}
use gno_land_block_indexer.Ent.Mutation.{string_kind, int_kind, float_kind, time_kind, held}
use gno_land_block_indexer.Ent.Create.{
  CreateSpec, required, validated, column, checked, if_unset, chain, is_named,
}
use gno_land_block_indexer.Ent.Mutation.Transfer.{TransferMutation, set_created_at}

abbrev pub defaults : Time → TransferMutation → TransferMutation
defaults now m = if_unset (λ m. m.created_at) (set_created_at now) m

unfoldable pub check : TransferMutation → Option Error
check m = required "hash" m.hash (
    validated "hash" is_named m.hash (
      required "func" m.func (
        validated "func" is_named m.func (
          required "token" m.token (
            validated "token" is_named m.token (
              required "amount" m.amount (
                validated "amount" is_positive m.amount (
                  required "denom" m.denom (
                    validated "denom" is_named m.denom
                      (required "created_at" m.created_at none))))))))))

unfoldable pub create_spec : TransferMutation → CreateSpec
create_spec m = record {
  table = "transfers";
  id_column = "id";
  id = held int_kind m.id;
  fields = column string_kind "hash" m.hash (
      column string_kind "func" m.func (
        column string_kind "from_address" m.from_address (
          column string_kind "to_address" m.to_address (
            column string_kind "token" m.token (
              column float_kind "amount" m.amount (
                column string_kind "denom" m.denom
                  (column time_kind "created_at" m.created_at [])))))));
  edges = [];
}

unfoldable pub sql_save : TransferMutation → Result CreateSpec
unfolding check create_spec
sql_save m = checked (check m) (create_spec m)

unfoldable pub save : Time → TransferMutation → Result CreateSpec
unfolding sql_save check create_spec
save now m = sql_save (defaults now m)

unfoldable pub save_bulk : Time → List TransferMutation → Result (List CreateSpec)
unfolding check create_spec
save_bulk now ms = chain check create_spec (map (defaults now) ms)
