-- ===== src/Tests/ReadBack.antt =====
-- The balances that are answered after a block with a mint and a transfer.
use gno_land_block_indexer.Prelude.{◌≡◌, refl, [], ◌∷◌, pos}
use gno_land_block_indexer.Ent.Error.{ok}
use gno_land_block_indexer.Ent.Memory.{memory, memory-IsLawful}
use gno_land_block_indexer.Repository.Accounts.{get_balances}
use gno_land_block_indexer.EventProcessor.Ledger.{apply_transactions}
use gno_land_block_indexer.EventProcessor.Process.{process_block_with_transactions}
use gno_land_block_indexer.EventProcessor.Process.ReadBack.{Reads, process_block-get_balances}
use gno_land_block_indexer.Tests.Data.{
  token, tx, seventh_block, no_tables-WellFormed, fresh, message,
}
use gno_land_block_indexer.Tests.Processing.{addressed, no_money, nothing_held, after}

processed : process_block_with_transactions memory 5 message fresh ≡ (ok tt, after)
unfolding gno_land_block_indexer.EventProcessor.Process.dispatch
    gno_land_block_indexer.EventProcessor.Process.handle_event
    gno_land_block_indexer.EventProcessor.Process.process_events
    gno_land_block_indexer.EventProcessor.Process.process_transaction
    gno_land_block_indexer.EventProcessor.Process.parse_and_process_transactions
    gno_land_block_indexer.EventProcessor.Process.process_block_with_transactions
    gno_land_block_indexer.EventProcessor.Handlers.ensure_account
    gno_land_block_indexer.EventProcessor.Handlers.handle_mint
    gno_land_block_indexer.EventProcessor.Handlers.handle_transfer
    gno_land_block_indexer.EventProcessor.Attributes.read_attr
    gno_land_block_indexer.EventProcessor.Attributes.read_attrs
    gno_land_block_indexer.Repository.Accounts.add_account
    gno_land_block_indexer.Repository.Accounts.get_account
    gno_land_block_indexer.Repository.Accounts.increment_account_balance
    gno_land_block_indexer.Repository.Blocks.add_block
    gno_land_block_indexer.Repository.Transactions.add_transactions
    gno_land_block_indexer.Repository.Transactions.transaction_row
    gno_land_block_indexer.Repository.Transfers.add_transfers
    gno_land_block_indexer.Repository.Transfers.transfer_row
    gno_land_block_indexer.Ent.Client.account_check gno_land_block_indexer.Ent.Client.block_check
    gno_land_block_indexer.Ent.Client.transaction_check
    gno_land_block_indexer.Ent.Client.transfer_check gno_land_block_indexer.Ent.Client.save_block
    gno_land_block_indexer.Ent.Client.save_transactions
    gno_land_block_indexer.Ent.Client.save_account gno_land_block_indexer.Ent.Client.save_transfers
    gno_land_block_indexer.Text.to_lower gno_land_block_indexer.Text.parse_int
    gno_land_block_indexer.Text.parse_digits gno_land_block_indexer.Text.digits_from
    gno_land_block_indexer.Float64.round_ℕ gno_land_block_indexer.Float64.round
    gno_land_block_indexer.Float64.of_int64 gno_land_block_indexer.Float64.add
    gno_land_block_indexer.Prelude.◌+ℤ◌ gno_land_block_indexer.Prelude.neg64
processed = refl

answered : get_balances memory "bob" after ≡ ok (record { token = token; amount = pos 30 } ∷ [])
unfolding gno_land_block_indexer.EventProcessor.Process.dispatch
    gno_land_block_indexer.EventProcessor.Process.handle_event
    gno_land_block_indexer.EventProcessor.Process.process_events
    gno_land_block_indexer.EventProcessor.Process.process_transaction
    gno_land_block_indexer.EventProcessor.Process.parse_and_process_transactions
    gno_land_block_indexer.EventProcessor.Process.process_block_with_transactions
    gno_land_block_indexer.EventProcessor.Handlers.ensure_account
    gno_land_block_indexer.EventProcessor.Handlers.handle_mint
    gno_land_block_indexer.EventProcessor.Handlers.handle_transfer
    gno_land_block_indexer.EventProcessor.Attributes.read_attr
    gno_land_block_indexer.EventProcessor.Attributes.read_attrs
    gno_land_block_indexer.Repository.Accounts.add_account
    gno_land_block_indexer.Repository.Accounts.get_account
    gno_land_block_indexer.Repository.Accounts.increment_account_balance
    gno_land_block_indexer.Repository.Blocks.add_block
    gno_land_block_indexer.Repository.Transactions.add_transactions
    gno_land_block_indexer.Repository.Transactions.transaction_row
    gno_land_block_indexer.Repository.Transfers.add_transfers
    gno_land_block_indexer.Repository.Transfers.transfer_row
    gno_land_block_indexer.Ent.Client.account_check gno_land_block_indexer.Ent.Client.block_check
    gno_land_block_indexer.Ent.Client.transaction_check
    gno_land_block_indexer.Ent.Client.transfer_check gno_land_block_indexer.Ent.Client.save_block
    gno_land_block_indexer.Ent.Client.save_transactions
    gno_land_block_indexer.Ent.Client.save_account gno_land_block_indexer.Ent.Client.save_transfers
    gno_land_block_indexer.Text.to_lower gno_land_block_indexer.Text.parse_int
    gno_land_block_indexer.Text.parse_digits gno_land_block_indexer.Text.digits_from
    gno_land_block_indexer.Float64.round_ℕ gno_land_block_indexer.Float64.round
    gno_land_block_indexer.Float64.of_int64 gno_land_block_indexer.Float64.add
    gno_land_block_indexer.Prelude.◌+ℤ◌ gno_land_block_indexer.Prelude.neg64
    gno_land_block_indexer.Repository.Accounts.get_balances
answered = refl

process_block-get_balances_example :
    Reads memory memory-IsLawful token
      (record { token = token; amount = pos 30 } ∷ [])
      (apply_transactions (tx ∷ []) no_money "bob" token)
process_block-get_balances_example =
    process_block-get_balances memory memory-IsLawful 5 seventh_block (tx ∷ []) no_money "bob" token
      fresh after (record { token = token; amount = pos 30 } ∷ []) addressed nothing_held
      no_tables-WellFormed refl (cc) processed answered
