-- ===== src/Ent/Update/Transfer.antt =====
-- `TransferUpdate` of ent/transfer_update.go: the checks and the changes of the statement.
use gno_land_block_indexer.Prelude.{Option, none, List, [], any, str_eq}
use gno_land_block_indexer.Float64.{is_positive}
use gno_land_block_indexer.Ent.Error.{Error, Result}
use gno_land_block_indexer.Ent.Mutation.{Value, string_kind, int_kind, float_kind, held}
use gno_land_block_indexer.Ent.Create.{validated, checked, is_named}
use gno_land_block_indexer.Ent.Update.{
  Change, of_row, column_cleared, only_if, set_change, add_change,
}
use gno_land_block_indexer.Ent.Mutation.Transfer.{TransferMutation}

unfoldable pub check : TransferMutation → Option Error
check m = validated "hash" is_named m.hash (
    validated "func" is_named m.func (
      validated "token" is_named m.token
        (validated "amount" is_positive m.amount (validated "denom" is_named m.denom none))))

-- The changes, which the builder of one row repeats.
unfoldable pub changes : TransferMutation → List Change
changes m = set_change string_kind "hash" m.hash (
    set_change string_kind "func" m.func (
      set_change string_kind "from_address" m.from_address (
        only_if (any (str_eq "from_address") m.cleared) (column_cleared "from_address") (
          set_change string_kind "to_address" m.to_address (
            only_if (any (str_eq "to_address") m.cleared) (column_cleared "to_address") (
              set_change string_kind "token" m.token (
                set_change float_kind "amount" m.amount (
                  add_change float_kind "amount" m.add_amount
                    (set_change string_kind "denom" m.denom [])))))))))

unfoldable pub sql_save : TransferMutation → Result (List Change)
unfolding check changes
sql_save m = checked (check m) (changes m)

-- `TransferUpdateOne`, of the row whose key the mutation has.
unfoldable pub sql_save_one : TransferMutation → Result (Value × List Change)
unfolding check changes
sql_save_one m = of_row (check m) (held int_kind m.id) (changes m)
