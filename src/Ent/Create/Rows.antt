-- ===== src/Ent/Create/Rows.antt =====
-- The rows of the tables as the statements that insert them: the columns of ent/migrate/schema.go
-- in their order. A nullable column without a value is left out.
use gno_land_block_indexer.Prelude.{Option, none, some, List, [], ◌∷◌, ◌++◌, String}
use gno_land_block_indexer.Ent.Tables.{
  BlockRow, TransactionRow, AccountRow, TransferRow, HistoryRow,
}
use gno_land_block_indexer.Ent.Mutation.{
  Value, string_value, int_value, float_value, bool_value, time_value, gas_fee_value,
  messages_value, response_value,
}
use gno_land_block_indexer.Ent.Create.{CreateSpec}

abbrev pub account_insert : AccountRow → CreateSpec
account_insert r = record {
  table = "accounts";
  id_column = "address";
  id = some (string_value r.address);
  fields = ("token", string_value r.token) ∷ ("amount", float_value r.amount) ∷ [];
  edges = [];
}

abbrev pub block_insert : BlockRow → CreateSpec
block_insert r = record {
  table = "blocks";
  id_column = "height";
  id = some (int_value r.height);
  fields =
      ("hash", string_value r.hash)
      ∷ ("time", time_value r.time)
      ∷ ("total_txs", int_value r.total_txs)
      ∷ ("num_txs", int_value r.num_txs)
      ∷ ("created_at", time_value r.created_at)
      ∷ [];
  edges = [];
}

abbrev pub transaction_insert : TransactionRow → CreateSpec
transaction_insert r = record {
  table = "transactions";
  id_column = "id";
  id = none;
  fields =
      ("index", int_value r.index)
      ∷ ("hash", string_value r.hash)
      ∷ ("success", bool_value r.success)
      ∷ ("block_height", int_value r.block_height)
      ∷ ("gas_wanted", float_value r.gas_wanted)
      ∷ ("gas_used", float_value r.gas_used)
      ∷ ("memo", string_value r.memo)
      ∷ ("gas_fee", gas_fee_value r.gas_fee)
      ∷ ("messages", messages_value r.messages)
      ∷ ("response", response_value r.response)
      ∷ ("created_at", time_value r.created_at)
      ∷ [];
  edges = ("block_transactions", int_value r.block_id) ∷ [];
}

abbrev nullable : String → Option String → List (String × Value)
nullable name none = []
nullable name (some v) = (name, string_value v) ∷ []

abbrev pub transfer_insert : TransferRow → CreateSpec
transfer_insert r = record {
  table = "transfers";
  id_column = "id";
  id = none;
  fields =
      ("hash", string_value r.hash)
      ∷ ("func", string_value r.func)
      ∷ (nullable "from_address" r.from_address
          ++ (nullable "to_address" r.to_address
              ++ (("token", string_value r.token)
                  ∷ ("amount", float_value r.amount)
                  ∷ ("denom", string_value r.denom)
                  ∷ ("created_at", time_value r.created_at)
                  ∷ [])));
  edges = [];
}

abbrev pub history_insert : HistoryRow → CreateSpec
history_insert r = record {
  table = "restore_histories";
  id_column = "id";
  id = some (int_value r.id);
  fields =
      ("restore_range_start", int_value r.restore_range_start)
      ∷ ("restore_range_end", int_value r.restore_range_end)
      ∷ ("being_block", int_value r.being_block)
      ∷ [];
  edges = [];
}
