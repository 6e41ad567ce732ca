-- ===== src/Ent/Update/Account.antt =====
-- `AccountUpdate` of ent/account_update.go: the checks and the changes of the statement.
use gno_land_block_indexer.Prelude.{Option, none, List, []}
use gno_land_block_indexer.Ent.Error.{Error, Result}
use gno_land_block_indexer.Ent.Mutation.{Value, string_kind, float_kind, held}
use gno_land_block_indexer.Ent.Create.{validated, checked, is_named}
use gno_land_block_indexer.Ent.Update.{Change, of_row, set_change, add_change}
use gno_land_block_indexer.Ent.Mutation.Account.{AccountMutation}

unfoldable pub check : AccountMutation → Option Error
check m = validated "token" is_named m.token none

-- The changes, which the builder of one row repeats.
unfoldable pub changes : AccountMutation → List Change
changes m =
    set_change string_kind "token" m.token
      (set_change float_kind "amount" m.amount (add_change float_kind "amount" m.add_amount []))

unfoldable pub sql_save : AccountMutation → Result (List Change)
unfolding check changes
sql_save m = checked (check m) (changes m)

-- `AccountUpdateOne`, of the row whose key the mutation has.
unfoldable pub sql_save_one : AccountMutation → Result (Value × List Change)
unfolding check changes
sql_save_one m = of_row (check m) (held string_kind m.id) (changes m)
