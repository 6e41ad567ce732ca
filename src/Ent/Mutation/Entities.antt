-- ===== src/Ent/Mutation/Entities.antt =====
-- The interface `ent.Mutation`: an operation runs on the type of its mutation.
use gno_land_block_indexer.Prelude.{String, Option}
use gno_land_block_indexer.Ent.Mutation.{Value, Assigned}
use gno_land_block_indexer.Ent.Mutation.Account
use gno_land_block_indexer.Ent.Mutation.Block
use gno_land_block_indexer.Ent.Mutation.Transaction
use gno_land_block_indexer.Ent.Mutation.Transfer
use gno_land_block_indexer.Ent.Mutation.RestoreHistory
use gno_land_block_indexer.Ent.Mutation.Transaction.Fields

pub data Entity : Type 0 where
  account block transaction transfer restore_history : Entity

abbrev pub MutationOf : Entity → Type 0
MutationOf account = Account.AccountMutation
MutationOf block = Block.BlockMutation
MutationOf transaction = Transaction.TransactionMutation
MutationOf transfer = Transfer.TransferMutation
MutationOf restore_history = RestoreHistory.RestoreHistoryMutation

abbrev pub set_field : (e : Entity) → String → Value → MutationOf e → Assigned (MutationOf e)
set_field account name v m = Account.set_field name v m
set_field block name v m = Block.set_field name v m
set_field transaction name v m = Fields.set_field name v m
set_field transfer name v m = Transfer.set_field name v m
set_field restore_history name v m = RestoreHistory.set_field name v m

abbrev pub field : (e : Entity) → String → MutationOf e → Option Value
field account name m = Account.field name m
field block name m = Block.field name m
field transaction name m = Fields.field name m
field transfer name m = Transfer.field name m
field restore_history name m = RestoreHistory.field name m

abbrev pub reset_field : (e : Entity) → String → MutationOf e → Assigned (MutationOf e)
reset_field account name m = Account.reset_field name m
reset_field block name m = Block.reset_field name m
reset_field transaction name m = Fields.reset_field name m
reset_field transfer name m = Transfer.reset_field name m
reset_field restore_history name m = RestoreHistory.reset_field name m
