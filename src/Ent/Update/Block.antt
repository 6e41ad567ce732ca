-- ===== src/Ent/Update/Block.antt =====
-- `BlockUpdate` of ent/block_update.go: the checks and the changes of the statement.
use gno_land_block_indexer.Prelude.{Option, none, List, []}
use gno_land_block_indexer.Ent.Error.{Error, Result}
use gno_land_block_indexer.Ent.Mutation.{Value, string_kind, int_kind, time_kind, held}
use gno_land_block_indexer.Ent.Create.{validated, checked, is_named}
use gno_land_block_indexer.Ent.Update.{Change, of_row, set_change, add_change}
use gno_land_block_indexer.Ent.Mutation.Block.{BlockMutation}

unfoldable pub check : BlockMutation → Option Error
check m = validated "hash" is_named m.hash none

-- The changes, which the builder of one row repeats.
unfoldable pub changes : BlockMutation → List Change
changes m = set_change string_kind "hash" m.hash (
    set_change time_kind "time" m.time (
      set_change int_kind "total_txs" m.total_txs (
        add_change int_kind "total_txs" m.add_total_txs (
          set_change int_kind "num_txs" m.num_txs
            (add_change int_kind "num_txs" m.add_num_txs [])))))

unfoldable pub sql_save : BlockMutation → Result (List Change)
unfolding check changes
sql_save m = checked (check m) (changes m)

-- `BlockUpdateOne`, of the row whose key the mutation has.
unfoldable pub sql_save_one : BlockMutation → Result (Value × List Change)
unfolding check changes
sql_save_one m = of_row (check m) (held int_kind m.id) (changes m)
