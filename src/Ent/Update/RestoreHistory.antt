-- ===== src/Ent/Update/RestoreHistory.antt =====
-- `RestoreHistoryUpdate` of ent/restorehistory_update.go: the checks and the changes of the statement.
use gno_land_block_indexer.Prelude.{none, List, []}
use gno_land_block_indexer.Ent.Error.{Result}
use gno_land_block_indexer.Ent.Mutation.{Value, int_kind, held}
use gno_land_block_indexer.Ent.Create.{checked}
use gno_land_block_indexer.Ent.Update.{Change, of_row, set_change, add_change}
use gno_land_block_indexer.Ent.Mutation.RestoreHistory.{RestoreHistoryMutation}

-- The changes, which the builder of one row repeats.
unfoldable pub changes : RestoreHistoryMutation → List Change
changes m = set_change int_kind "restore_range_start" m.restore_range_start (
    add_change int_kind "restore_range_start" m.add_restore_range_start (
      set_change int_kind "restore_range_end" m.restore_range_end (
        add_change int_kind "restore_range_end" m.add_restore_range_end (
          set_change int_kind "being_block" m.being_block
            (add_change int_kind "being_block" m.add_being_block [])))))

unfoldable pub sql_save : RestoreHistoryMutation → Result (List Change)
unfolding changes
sql_save m = checked none (changes m)

-- `RestoreHistoryUpdateOne`, of the row whose key the mutation has.
unfoldable pub sql_save_one : RestoreHistoryMutation → Result (Value × List Change)
unfolding changes
sql_save_one m = of_row none (held int_kind m.id) (changes m)
