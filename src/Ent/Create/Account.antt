-- ===== src/Ent/Create/Account.antt =====
-- `AccountCreate` and `AccountCreateBulk` of ent/account_create.go: the defaults, the checks and the statement.
use gno_land_block_indexer.Prelude.{Option, none, List, []}
use gno_land_block_indexer.Ent.Error.{Error, Result}
use gno_land_block_indexer.Ent.Mutation.{string_kind, float_kind, held}
use gno_land_block_indexer.Ent.Create.{
  CreateSpec, required, validated, column, checked, chain, is_named,
}
use gno_land_block_indexer.Ent.Mutation.Account.{AccountMutation}

unfoldable pub check : AccountMutation → Option Error
check m = required "token" m.token (
    validated "token" is_named m.token
      (required "amount" m.amount (validated "id" is_named m.id none)))

unfoldable pub create_spec : AccountMutation → CreateSpec
create_spec m = record {
  table = "accounts";
  id_column = "address";
  id = held string_kind m.id;
  fields = column string_kind "token" m.token (column float_kind "amount" m.amount []);
  edges = [];
}

unfoldable pub sql_save : AccountMutation → Result CreateSpec
unfolding check create_spec
sql_save m = checked (check m) (create_spec m)

unfoldable pub save : AccountMutation → Result CreateSpec
unfolding sql_save check create_spec
save m = sql_save m

unfoldable pub save_bulk : List AccountMutation → Result (List CreateSpec)
unfolding check create_spec
save_bulk ms = chain check create_spec ms
