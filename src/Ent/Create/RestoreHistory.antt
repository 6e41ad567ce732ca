-- ===== src/Ent/Create/RestoreHistory.antt =====
-- `RestoreHistoryCreate` and `RestoreHistoryCreateBulk` of ent/restorehistory_create.go: the defaults, the checks and the statement.
use gno_land_block_indexer.Prelude.{Option, none, List, []}
use gno_land_block_indexer.Ent.Error.{Error, Result}
use gno_land_block_indexer.Ent.Mutation.{int_kind, held}
use gno_land_block_indexer.Ent.Create.{CreateSpec, required, column, checked, chain}
use gno_land_block_indexer.Ent.Mutation.RestoreHistory.{RestoreHistoryMutation}

unfoldable pub check : RestoreHistoryMutation → Option Error
check m =
    required "restore_range_start" m.restore_range_start
      (required "restore_range_end" m.restore_range_end (required "being_block" m.being_block none))

unfoldable pub create_spec : RestoreHistoryMutation → CreateSpec
create_spec m = record {
  table = "restore_histories";
  id_column = "id";
  id = held int_kind m.id;
  fields = column int_kind "restore_range_start" m.restore_range_start (
      column int_kind "restore_range_end" m.restore_range_end
        (column int_kind "being_block" m.being_block []));
  edges = [];
}

unfoldable pub sql_save : RestoreHistoryMutation → Result CreateSpec
unfolding check create_spec
sql_save m = checked (check m) (create_spec m)

unfoldable pub save : RestoreHistoryMutation → Result CreateSpec
unfolding sql_save check create_spec
save m = sql_save m

unfoldable pub save_bulk : List RestoreHistoryMutation → Result (List CreateSpec)
unfolding check create_spec
save_bulk ms = chain check create_spec ms
