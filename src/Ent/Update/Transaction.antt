-- ===== src/Ent/Update/Transaction.antt =====
-- `TransactionUpdate` of ent/transaction_update.go: the checks and the changes of the statement.
use gno_land_block_indexer.Prelude.{not, Option, none, List, [], any, str_eq}
use gno_land_block_indexer.Ent.Error.{Error, Result}
use gno_land_block_indexer.Ent.Mutation.{
  Value, string_kind, int_kind, float_kind, bool_kind, gas_fee_kind, messages_kind, response_kind,
  held,
}
use gno_land_block_indexer.Ent.Create.{validated, checked, is_named}
use gno_land_block_indexer.Ent.Update.{
  Change, of_row, column_cleared, column_appended, edge_cleared, edge_change, only_if, set_change,
  add_change, is_empty,
}
use gno_land_block_indexer.Ent.Mutation.Transaction.{TransactionMutation}

unfoldable pub check : TransactionMutation → Option Error
check m = validated "hash" is_named m.hash none

-- The changes, which the builder of one row repeats.
unfoldable pub changes : TransactionMutation → List Change
changes m = set_change int_kind "index" m.index (
    add_change int_kind "index" m.add_index (
      set_change string_kind "hash" m.hash (
        set_change bool_kind "success" m.success (
          set_change int_kind "block_height" m.block_height (
            add_change int_kind "block_height" m.add_block_height (
              set_change float_kind "gas_wanted" m.gas_wanted (
                add_change float_kind "gas_wanted" m.add_gas_wanted (
                  set_change float_kind "gas_used" m.gas_used (
                    add_change float_kind "gas_used" m.add_gas_used (
                      set_change string_kind "memo" m.memo (
                        only_if (any (str_eq "memo") m.cleared) (column_cleared "memo") (
                          set_change gas_fee_kind "gas_fee" m.gas_fee (
                            only_if (any (str_eq "gas_fee") m.cleared) (column_cleared "gas_fee") (
                              set_change messages_kind "messages" m.messages (
                                only_if (not (is_empty m.append_messages))
                                  (column_appended "messages" m.append_messages)
                                  (only_if (any (str_eq "messages") m.cleared)
                                    (column_cleared "messages")
                                    (set_change response_kind "response" m.response (
                                      only_if (any (str_eq "response") m.cleared)
                                        (column_cleared "response")
                                        (only_if m.cleared_block (edge_cleared "block_transactions")
                                          (edge_change "block_transactions" m.block
                                            []))))))))))))))))))))

unfoldable pub sql_save : TransactionMutation → Result (List Change)
unfolding check changes
sql_save m = checked (check m) (changes m)

-- `TransactionUpdateOne`, of the row whose key the mutation has.
unfoldable pub sql_save_one : TransactionMutation → Result (Value × List Change)
unfolding check changes
sql_save_one m = of_row (check m) (held int_kind m.id) (changes m)
