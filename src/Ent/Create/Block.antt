-- ===== src/Ent/Create/Block.antt =====
-- `BlockCreate` and `BlockCreateBulk` of ent/block_create.go: the defaults, the checks and the statement.
use gno_land_block_indexer.Prelude.{Option, none, List, [], map}
use gno_land_block_indexer.Model.{Time}
use gno_land_block_indexer.Ent.Error.{Error, Result}
use gno_land_block_indexer.Ent.Mutation.{string_kind, int_kind, time_kind, held}
use gno_land_block_indexer.Ent.Create.{
  CreateSpec, required, validated, column, checked, if_unset, chain, is_named,
}
use gno_land_block_indexer.Ent.Mutation.Block.{BlockMutation, set_created_at}

abbrev pub defaults : Time → BlockMutation → BlockMutation
defaults now m = if_unset (λ m. m.created_at) (set_created_at now) m

unfoldable pub check : BlockMutation → Option Error
check m = required "hash" m.hash (
    validated "hash" is_named m.hash (
      required "time" m.time (
        required "total_txs" m.total_txs
          (required "num_txs" m.num_txs (required "created_at" m.created_at none)))))

unfoldable pub create_spec : BlockMutation → CreateSpec
create_spec m = record {
  table = "blocks";
  id_column = "height";
  id = held int_kind m.id;
  fields = column string_kind "hash" m.hash (
      column time_kind "time" m.time (
        column int_kind "total_txs" m.total_txs
          (column int_kind "num_txs" m.num_txs (column time_kind "created_at" m.created_at []))));
  edges = [];
}

unfoldable pub sql_save : BlockMutation → Result CreateSpec
unfolding check create_spec
sql_save m = checked (check m) (create_spec m)

unfoldable pub save : Time → BlockMutation → Result CreateSpec
unfolding sql_save check create_spec
save now m = sql_save (defaults now m)

unfoldable pub save_bulk : Time → List BlockMutation → Result (List CreateSpec)
unfolding check create_spec
save_bulk now ms = chain check create_spec (map (defaults now) ms)
