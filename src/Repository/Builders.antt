-- ===== src/Repository/Builders.antt =====
-- The builders that repository/repository_ent.go and the block synchronizer's repository chain
-- together, as the mutations that their setters leave. `now` is what `time.Now` returns.
pub mod Laws
use gno_land_block_indexer.Prelude.{String, List, map, ℤ, pos, if◌then◌else◌, str_eq}
use gno_land_block_indexer.Text.{to_lower}
use gno_land_block_indexer.Float64.{of_int64}
use gno_land_block_indexer.Model.{Time, Block, Transaction, Account, Transfer}
use gno_land_block_indexer.Repository.Convert.{
  gas_fee_to_schema, convert_messages_to_schema, convert_response_to_schema,
}
use gno_land_block_indexer.Ent.Mutation.Account
use gno_land_block_indexer.Ent.Mutation.Block
use gno_land_block_indexer.Ent.Mutation.Transaction
use gno_land_block_indexer.Ent.Mutation.Transfer
use gno_land_block_indexer.Ent.Mutation.RestoreHistory

-- A setter after the others, in the order of the source.
infixl 20 ◌then◌
abbrev ◌then◌ {ℓ κ} : {A : Type ℓ} {B : Type κ} → A → (A → B) → B
a then f = f a

abbrev pub account_builder : Account → Account.AccountMutation
account_builder a =
    Account.new_mutation
    then Account.set_id a.address
    then Account.set_token a.token
    then Account.set_amount a.amount

abbrev pub increment_builder : ℤ → Account.AccountMutation
increment_builder amount = Account.new_mutation then Account.increase_amount (of_int64 amount)

abbrev pub block_builder : Time → Block → Block.BlockMutation
block_builder now b =
    Block.new_mutation
    then Block.set_hash b.hash
    then Block.set_id b.height
    then Block.set_time b.time
    then Block.set_total_txs b.total_txs
    then Block.set_num_txs b.num_txs
    then Block.set_created_at now

abbrev pub transaction_builder : Time → ℤ → Transaction → Transaction.TransactionMutation
transaction_builder now block_num tx =
    Transaction.new_mutation
    then Transaction.set_index tx.index
    then Transaction.set_hash tx.hash
    then Transaction.set_success tx.success
    then Transaction.set_block_height tx.block_height
    then Transaction.set_gas_wanted tx.gas_wanted
    then Transaction.set_gas_used tx.gas_used
    then Transaction.set_memo tx.memo
    then Transaction.set_gas_fee (gas_fee_to_schema tx.gas_fee)
    then Transaction.set_messages (convert_messages_to_schema tx.messages)
    then Transaction.set_response (convert_response_to_schema tx.response)
    then Transaction.set_block_id block_num
    then Transaction.set_created_at now

abbrev from_if_named : String → Transfer.TransferMutation → Transfer.TransferMutation
from_if_named a m = if str_eq a "" then m else Transfer.set_from_address a m

abbrev to_if_named : String → Transfer.TransferMutation → Transfer.TransferMutation
to_if_named a m = if str_eq a "" then m else Transfer.set_to_address a m

abbrev pub transfer_builder : Time → Transaction → Transfer → Transfer.TransferMutation
transfer_builder now tx t =
    Transfer.new_mutation
    then Transfer.set_hash tx.hash
    then Transfer.set_func (to_lower t.func)
    then Transfer.set_token t.token
    then Transfer.set_amount t.amount
    then Transfer.set_denom t.denom
    then Transfer.set_created_at now
    then from_if_named t.from_address
    then to_if_named t.to_address

abbrev pub history_builder : ℤ → ℤ → RestoreHistory.RestoreHistoryMutation
history_builder start end_block =
    RestoreHistory.new_mutation
    then RestoreHistory.set_id (pos 1)
    then RestoreHistory.set_restore_range_start start
    then RestoreHistory.set_restore_range_end end_block
    then RestoreHistory.set_being_block (pos 0)

-- The builders of a bulk.
abbrev pub block_builders : Time → List Block → List Block.BlockMutation
block_builders now bs = map (block_builder now) bs

abbrev pub transaction_builders : Time → ℤ → List Transaction → List Transaction.TransactionMutation
transaction_builders now block_num txs = map (transaction_builder now block_num) txs

abbrev pub transfer_builders : Time → Transaction → List Transfer → List Transfer.TransferMutation
transfer_builders now tx ts = map (transfer_builder now tx) ts
