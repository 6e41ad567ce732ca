-- ===== src/Repository/Transactions.antt =====
-- The transaction operations: `AddTransaction`, `AddTransactions`, `GetTransaction` and
-- `GetTransactions`.
pub mod Laws
pub mod Reported
use gno_land_block_indexer.Prelude.{
  ℕ, String, Option, none, some, List, [], ◌∷◌, map, ℤ, if◌then◌else◌,
}
use gno_land_block_indexer.Model.{Time, Transaction}
use gno_land_block_indexer.Ent.Error.{Error, Result, ok, err, wrap, is_constraint_error, only_node}
use gno_land_block_indexer.Ent.Tables.{TransactionRow}
use gno_land_block_indexer.Ent.Database.{Database}
use gno_land_block_indexer.Ent.Client.{save_transaction, save_transactions, then_nodes, all_nodes}
use gno_land_block_indexer.Repository.Convert.{
  gas_fee_to_schema, gas_fee_to_model, convert_messages_to_schema, convert_response_to_schema,
  convert_schema_messages_to_model, convert_schema_response_to_model,
}

-- The row of a transaction of block `block_num`.
unfoldable pub transaction_row : Time → ℤ → Transaction → TransactionRow
transaction_row now block_num tx = record {
  index = tx.index;
  hash = tx.hash;
  success = tx.success;
  block_height = tx.block_height;
  gas_wanted = tx.gas_wanted;
  gas_used = tx.gas_used;
  memo = tx.memo;
  gas_fee = gas_fee_to_schema tx.gas_fee;
  messages = convert_messages_to_schema tx.messages;
  response = convert_response_to_schema tx.response;
  created_at = now;
  block_id = block_num;
}

unfoldable pub transaction_model : TransactionRow → Transaction
transaction_model r = record {
  index = r.index;
  hash = r.hash;
  success = r.success;
  block_height = r.block_height;
  gas_wanted = r.gas_wanted;
  gas_used = r.gas_used;
  memo = r.memo;
  gas_fee = gas_fee_to_model r.gas_fee;
  messages = convert_schema_messages_to_model r.messages;
  response = convert_schema_response_to_model r.response;
}

module _ (D : Database) where
  open D use {State}

  abbrev transaction_added : Result (Unit {0}) × State → Result (Unit {0}) × State
  transaction_added (ok _, s) = (ok tt, s)
  transaction_added (err e, s) = (err (wrap "failed to add transaction" e), s)

  unfoldable pub add_transaction : Time → ℤ → Transaction → State → Result (Unit {0}) × State
  add_transaction now block_num tx s =
      transaction_added (save_transaction D (transaction_row now block_num tx) s)

  -- A constraint error is passed over: the transactions are taken to be there already.
  abbrev pub transactions_added : Result (Unit {0}) × State → Result (Unit {0}) × State
  transactions_added (ok _, s) = (ok tt, s)
  transactions_added (err e, s) =
      (if is_constraint_error e then ok tt else err (wrap "failed to add transactions" e), s)

  unfoldable pub add_transactions : Time → ℤ → List Transaction → State → Result (Unit {0}) × State
  add_transactions now block_num [] s = (ok tt, s)
  add_transactions now block_num (tx ∷ txs) s =
      transactions_added (save_transactions D (map (transaction_row now block_num) (tx ∷ txs)) s)

  abbrev found_transaction : Result TransactionRow → Result Transaction
  found_transaction (ok r) = ok (transaction_model r)
  found_transaction (err e) = err (wrap "failed to get transaction" e)

  unfoldable pub get_transaction : String → State → Result Transaction
  get_transaction hash s = found_transaction (then_nodes (D.select_transaction hash 2 s) only_node)

  abbrev found_transactions : Result (List TransactionRow) → Result (List Transaction)
  found_transactions (ok rs) = ok (map transaction_model rs)
  found_transactions (err e) = err (wrap "failed to get transactions" e)

  unfoldable pub get_transactions : ℤ → ℕ → ℕ → State → Result (List Transaction)
  get_transactions block_num offset limit s =
      found_transactions (all_nodes (D.select_transactions_asc block_num offset (some limit) s))
