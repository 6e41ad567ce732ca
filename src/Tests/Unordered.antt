-- ===== src/Tests/Unordered.antt =====
-- One block on two databases that list the same accounts in another order.
use mathlib.Core.Quot
use gno_land_block_indexer.Prelude.{◌≡◌, refl, true, false, [], ◌∷◌, pos, String, All}
use gno_land_block_indexer.Ent.Error.{ok}
use gno_land_block_indexer.Ent.Tables.{AccountRow}
use gno_land_block_indexer.Ent.Memory.{Server, memory, memory-IsLawful, steady, steady-IsLawful}
use gno_land_block_indexer.Ent.Accounts.{here}
use gno_land_block_indexer.Ent.Balances.{balance}
use gno_land_block_indexer.EventProcessor.Process.{process_block_with_transactions}
use gno_land_block_indexer.EventProcessor.Process.Unordered.{accounts_of, process_block_unordered}
use gno_land_block_indexer.Tests.Data.{token, tx, seventh_block, message, no_tables}
use gno_land_block_indexer.Tests.Processing.{addressed}

abbrev alice_row : AccountRow
alice_row = record { address = "alice"; token = token; amount = pos 10 }

abbrev bob_row : AccountRow
bob_row = record { address = "bob"; token = token; amount = pos 20 }

abbrev alice_first : Server
alice_first = record {
  tables = record no_tables { accounts = alice_row ∷ bob_row ∷ [] };
  statements_left = 100;
}

abbrev bob_first : Server
bob_first = record {
  tables = record no_tables { accounts = bob_row ∷ alice_row ∷ [] };
  statements_left = 100;
}

same_accounts :
    accounts_of alice_first.tables (refl, (refl, tt))
    ≡ accounts_of bob_first.tables (refl, (refl, tt))
same_accounts = Quot.sound here

abbrev after_alice : Server
after_alice = (process_block_with_transactions memory 5 message alice_first).1

abbrev after_bob : Server
after_bob = (process_block_with_transactions steady 6 message bob_first).1

alice_ran : process_block_with_transactions memory 5 message alice_first ≡ (ok tt, after_alice)
unfolding gno_land_block_indexer.EventProcessor.Process.dispatch
    gno_land_block_indexer.EventProcessor.Process.handle_event
    gno_land_block_indexer.EventProcessor.Process.process_events
    gno_land_block_indexer.EventProcessor.Process.process_transaction
    gno_land_block_indexer.EventProcessor.Process.parse_and_process_transactions
    gno_land_block_indexer.EventProcessor.Process.process_block_with_transactions
    gno_land_block_indexer.EventProcessor.Handlers.ensure_account
    gno_land_block_indexer.EventProcessor.Handlers.handle_mint
    gno_land_block_indexer.EventProcessor.Handlers.handle_transfer
    gno_land_block_indexer.EventProcessor.Attributes.read_attr
    gno_land_block_indexer.EventProcessor.Attributes.read_attrs
    gno_land_block_indexer.Repository.Accounts.add_account
    gno_land_block_indexer.Repository.Accounts.get_account
    gno_land_block_indexer.Repository.Accounts.increment_account_balance
    gno_land_block_indexer.Repository.Blocks.add_block
    gno_land_block_indexer.Repository.Transactions.add_transactions
    gno_land_block_indexer.Repository.Transactions.transaction_row
    gno_land_block_indexer.Repository.Transfers.add_transfers
    gno_land_block_indexer.Repository.Transfers.transfer_row
    gno_land_block_indexer.Ent.Client.account_check gno_land_block_indexer.Ent.Client.block_check
    gno_land_block_indexer.Ent.Client.transaction_check
    gno_land_block_indexer.Ent.Client.transfer_check gno_land_block_indexer.Ent.Client.save_block
    gno_land_block_indexer.Ent.Client.save_transactions
    gno_land_block_indexer.Ent.Client.save_account gno_land_block_indexer.Ent.Client.save_transfers
    gno_land_block_indexer.Text.to_lower gno_land_block_indexer.Text.parse_int
    gno_land_block_indexer.Text.parse_digits gno_land_block_indexer.Text.digits_from
    gno_land_block_indexer.Float64.round_ℕ gno_land_block_indexer.Float64.round
    gno_land_block_indexer.Float64.of_int64 gno_land_block_indexer.Float64.add
    gno_land_block_indexer.Prelude.◌+ℤ◌ gno_land_block_indexer.Prelude.neg64
    gno_land_block_indexer.Ent.Balances.balance
alice_ran = refl

bob_ran : process_block_with_transactions steady 6 message bob_first ≡ (ok tt, after_bob)
unfolding gno_land_block_indexer.EventProcessor.Process.dispatch
    gno_land_block_indexer.EventProcessor.Process.handle_event
    gno_land_block_indexer.EventProcessor.Process.process_events
    gno_land_block_indexer.EventProcessor.Process.process_transaction
    gno_land_block_indexer.EventProcessor.Process.parse_and_process_transactions
    gno_land_block_indexer.EventProcessor.Process.process_block_with_transactions
    gno_land_block_indexer.EventProcessor.Handlers.ensure_account
    gno_land_block_indexer.EventProcessor.Handlers.handle_mint
    gno_land_block_indexer.EventProcessor.Handlers.handle_transfer
    gno_land_block_indexer.EventProcessor.Attributes.read_attr
    gno_land_block_indexer.EventProcessor.Attributes.read_attrs
    gno_land_block_indexer.Repository.Accounts.add_account
    gno_land_block_indexer.Repository.Accounts.get_account
    gno_land_block_indexer.Repository.Accounts.increment_account_balance
    gno_land_block_indexer.Repository.Blocks.add_block
    gno_land_block_indexer.Repository.Transactions.add_transactions
    gno_land_block_indexer.Repository.Transactions.transaction_row
    gno_land_block_indexer.Repository.Transfers.add_transfers
    gno_land_block_indexer.Repository.Transfers.transfer_row
    gno_land_block_indexer.Ent.Client.account_check gno_land_block_indexer.Ent.Client.block_check
    gno_land_block_indexer.Ent.Client.transaction_check
    gno_land_block_indexer.Ent.Client.transfer_check gno_land_block_indexer.Ent.Client.save_block
    gno_land_block_indexer.Ent.Client.save_transactions
    gno_land_block_indexer.Ent.Client.save_account gno_land_block_indexer.Ent.Client.save_transfers
    gno_land_block_indexer.Text.to_lower gno_land_block_indexer.Text.parse_int
    gno_land_block_indexer.Text.parse_digits gno_land_block_indexer.Text.digits_from
    gno_land_block_indexer.Float64.round_ℕ gno_land_block_indexer.Float64.round
    gno_land_block_indexer.Float64.of_int64 gno_land_block_indexer.Float64.add
    gno_land_block_indexer.Prelude.◌+ℤ◌ gno_land_block_indexer.Prelude.neg64
    gno_land_block_indexer.Ent.Balances.balance
bob_ran = refl

process_block_unordered_example :
    balance "alice" token after_alice.tables.accounts
    ≡ balance "alice" token after_bob.tables.accounts
process_block_unordered_example =
    process_block_unordered memory memory-IsLawful steady steady-IsLawful 5 6 seventh_block
      (tx ∷ []) alice_first after_alice bob_first after_bob (refl, (refl, tt)) (refl, (refl, tt))
      same_accounts addressed refl refl alice_ran bob_ran "alice" token
