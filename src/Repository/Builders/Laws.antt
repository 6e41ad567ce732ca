-- ===== src/Repository/Builders/Laws.antt =====
-- The rows that the model of ent/'s `Save` takes are what the repository's builders insert.
use gno_land_block_indexer.Prelude.{◌≡◌, refl, Option, List, [], ◌∷◌, map, ℤ, arith}
use gno_land_block_indexer.Float64.{of_int64}
use gno_land_block_indexer.Model.{Time, Block, Transaction, Account, Transfer}
use gno_land_block_indexer.Ent.Error.{Error, ok}
use gno_land_block_indexer.Ent.Client.{
  account_check, block_check, transaction_check, transfer_check, check_all,
}
use gno_land_block_indexer.Ent.Mutation.{float_value}
use gno_land_block_indexer.Ent.Create.{CreateSpec, chain, checked}
use gno_land_block_indexer.Ent.Create.Rows.{
  account_insert, block_insert, transaction_insert, transfer_insert, history_insert,
}
use gno_land_block_indexer.Ent.Create.Account
use gno_land_block_indexer.Ent.Create.Block
use gno_land_block_indexer.Ent.Create.Transaction
use gno_land_block_indexer.Ent.Create.Transfer
use gno_land_block_indexer.Ent.Create.RestoreHistory
use gno_land_block_indexer.Ent.Update.{column_added}
use gno_land_block_indexer.Ent.Update.Account as AccountUpdate
use gno_land_block_indexer.BlockSynchronizer.History.{history_row}
use gno_land_block_indexer.Repository.Accounts.{account_row}
use gno_land_block_indexer.Repository.Blocks.{block_row}
use gno_land_block_indexer.Repository.Transactions.{transaction_row}
use gno_land_block_indexer.Repository.Transfers.{transfer_row}
use gno_land_block_indexer.Repository.Builders.{
  account_builder, block_builder, transaction_builder, transfer_builder, history_builder,
  block_builders, transaction_builders, transfer_builders, increment_builder,
}

module _ {X M R : Type 0} (build : X → M) (set_defaults : M → M) (check : M → Option Error)
    (create_spec : M → CreateSpec) (row : X → R) (row_check : R → Option Error)
    (insert : R → CreateSpec) where
  chain-check_all :
      ((x : X) → check (set_defaults (build x)) ≡ row_check (row x))
      → ((x : X) → create_spec (set_defaults (build x)) ≡ insert (row x))
      → (xs : List X)
      → chain check create_spec (map set_defaults (map build xs))
        ≡ checked (check_all row_check (map row xs)) (map insert (map row xs))
  chain-check_all same_check same_spec [] = refl
  chain-check_all same_check same_spec (x ∷ xs) =
      ground (arith, same_check x, same_spec x, chain-check_all same_check same_spec xs)

account_builder-Insert :
    (a : Account)
    → Account.save (account_builder a)
      ≡ checked (account_check (account_row a)) (account_insert (account_row a))
unfolding Account.save Account.sql_save Account.check Account.create_spec account_check
account_builder-Insert a = ground arith

block_builder-Insert :
    (start now : Time) (b : Block)
    → Block.save start (block_builder now b)
      ≡ checked (block_check (block_row now b)) (block_insert (block_row now b))
unfolding Block.save Block.sql_save Block.check Block.create_spec block_check
block_builder-Insert start now b = ground arith

transaction_builder-Insert :
    (start now : Time) (n : ℤ) (tx : Transaction)
    → Transaction.save start (transaction_builder now n tx)
      ≡ checked
          (transaction_check (transaction_row now n tx))
          (transaction_insert (transaction_row now n tx))
unfolding Transaction.save Transaction.sql_save Transaction.check Transaction.create_spec
    transaction_check transaction_row
transaction_builder-Insert start now n tx = ground arith

transfer_builder-Insert :
    (start now : Time) (tx : Transaction) (t : Transfer)
    → Transfer.save start (transfer_builder now tx t)
      ≡ checked (transfer_check (transfer_row now tx t)) (transfer_insert (transfer_row now tx t))
unfolding Transfer.save Transfer.sql_save Transfer.check Transfer.create_spec transfer_check
    transfer_row
transfer_builder-Insert start now tx t = ground arith

history_builder-Insert :
    (start end_block : ℤ)
    → RestoreHistory.save (history_builder start end_block)
      ≡ ok (history_insert (history_row start end_block))
unfolding RestoreHistory.save RestoreHistory.sql_save RestoreHistory.check
    RestoreHistory.create_spec
history_builder-Insert start end_block = refl

-- `save_bulk` of each table.
block_builders-Insert :
    (start now : Time) (bs : List Block)
    → Block.save_bulk start (block_builders now bs)
      ≡ checked
          (check_all block_check (map (block_row now) bs))
          (map block_insert (map (block_row now) bs))
unfolding Block.save_bulk Block.check Block.create_spec block_check
block_builders-Insert start now bs =
    chain-check_all (block_builder now) (Block.defaults start) Block.check Block.create_spec
      (block_row now) block_check block_insert (λ b. ground arith) (λ b. refl) bs

transaction_builders-Insert :
    (start now : Time) (n : ℤ) (txs : List Transaction)
    → Transaction.save_bulk start (transaction_builders now n txs)
      ≡ checked
          (check_all transaction_check (map (transaction_row now n) txs))
          (map transaction_insert (map (transaction_row now n) txs))
unfolding Transaction.save_bulk Transaction.check Transaction.create_spec transaction_check
    transaction_row
transaction_builders-Insert start now n txs =
    chain-check_all (transaction_builder now n) (Transaction.defaults start) Transaction.check
      Transaction.create_spec (transaction_row now n) transaction_check transaction_insert
      (λ tx. ground arith) (λ tx. refl) txs

transfer_builders-Insert :
    (start now : Time) (tx : Transaction) (ts : List Transfer)
    → Transfer.save_bulk start (transfer_builders now tx ts)
      ≡ checked
          (check_all transfer_check (map (transfer_row now tx) ts))
          (map transfer_insert (map (transfer_row now tx) ts))
unfolding Transfer.save_bulk Transfer.check Transfer.create_spec transfer_check transfer_row
transfer_builders-Insert start now tx ts =
    chain-check_all (transfer_builder now tx) (Transfer.defaults start) Transfer.check
      Transfer.create_spec (transfer_row now tx) transfer_check transfer_insert (λ t. ground arith)
      (λ t. ground arith) ts

increment_builder-Adds :
    (n : ℤ)
    → AccountUpdate.sql_save (increment_builder n)
      ≡ ok (column_added "amount" (float_value (of_int64 n)) ∷ [])
unfolding AccountUpdate.sql_save AccountUpdate.check
increment_builder-Adds n = refl

-- Every statement is the one that inserts the rows, or the rows' check refuses them.
abbrev pub BuildersInsert :
    Time
    → Time
    → Account
    → Block
    → ℤ
    → Transaction
    → Transfer
    → ℤ
    → ℤ
    → ℤ
    → List Block
    → List Transaction
    → List Transfer
    → Type 0
BuildersInsert start now a b n tx t start_block end_block amount bs txs ts =
    (Account.save (account_builder a)
      ≡ checked (account_check (account_row a)) (account_insert (account_row a)))
    × (Block.save start (block_builder now b)
        ≡ checked (block_check (block_row now b)) (block_insert (block_row now b)))
    × (Transaction.save start (transaction_builder now n tx)
        ≡ checked (transaction_check (transaction_row now n tx))
            (transaction_insert (transaction_row now n tx)))
    × (Transfer.save start (transfer_builder now tx t)
        ≡ checked (transfer_check (transfer_row now tx t))
            (transfer_insert (transfer_row now tx t)))
    × (RestoreHistory.save (history_builder start_block end_block)
        ≡ ok (history_insert (history_row start_block end_block)))
    × (AccountUpdate.sql_save (increment_builder amount)
        ≡ ok (column_added "amount" (float_value (of_int64 amount)) ∷ []))
    × (Block.save_bulk start (block_builders now bs)
        ≡ checked (check_all block_check (map (block_row now) bs))
            (map block_insert (map (block_row now) bs)))
    × (Transaction.save_bulk start (transaction_builders now n txs)
        ≡ checked (check_all transaction_check (map (transaction_row now n) txs))
            (map transaction_insert (map (transaction_row now n) txs)))
    × (Transfer.save_bulk start (transfer_builders now tx ts)
        ≡ checked (check_all transfer_check (map (transfer_row now tx) ts))
            (map transfer_insert (map (transfer_row now tx) ts)))

-- Each builder that the repositories chain together, saved alone or in a bulk, passes its check, or
-- fails it with an error, just as the row does that the operation's model makes of the same
-- arguments, and then runs the statement that inserts that row, or the rows of the bulk in order,
-- every column of it; the builder of the balance only adds the amount to the amount's column.
pub builders-Insert :
    (start now : Time) (a : Account) (b : Block) (n : ℤ) (tx : Transaction) (t : Transfer)
    (start_block end_block amount : ℤ) (bs : List Block) (txs : List Transaction)
    (ts : List Transfer)
    → BuildersInsert start now a b n tx t start_block end_block amount bs txs ts
builders-Insert start now a b n tx t start_block end_block amount bs txs ts = (
  account_builder-Insert a,
  block_builder-Insert start now b,
  transaction_builder-Insert start now n tx,
  transfer_builder-Insert start now tx t,
  history_builder-Insert start_block end_block,
  increment_builder-Adds amount,
  block_builders-Insert start now bs,
  transaction_builders-Insert start now n txs,
  transfer_builders-Insert start now tx ts,
)
