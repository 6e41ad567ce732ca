-- ===== src/Tests/Data.antt =====
-- Blocks, transactions and tables for the tests.
use gno_land_block_indexer.Prelude.{refl, String, some, [], ◌∷◌, pos, true}
use gno_land_block_indexer.Model.{Block, Transaction, Event, BlockWithTransactions}
use gno_land_block_indexer.Ent.Tables.{Tables}
use gno_land_block_indexer.Ent.Memory.{Server}
use gno_land_block_indexer.Ent.WellFormed.{WellFormed}

abbrev pub token : String
token = "gno.land/r/demo/foo20"

abbrev pub seventh_block : Block
seventh_block = record { hash = "b7"; height = pos 7; time = 3; total_txs = pos 1; num_txs = pos 1 }

abbrev transfer_event : String → String → String → String → Event
transfer_event func from_address to_address value = record {
  type = "Transfer";
  func = func;
  pkg_path = token;
  attrs =
      record { key = "from"; value = from_address }
      ∷ record { key = "to"; value = to_address }
      ∷ record { key = "value"; value = value }
      ∷ [];
}

abbrev pub mint_event : Event
mint_event = transfer_event "Mint" "" "alice" "100"

abbrev pub move_event : Event
move_event = transfer_event "Transfer" "alice" "bob" "30"

abbrev pub tx : Transaction
tx = record {
  index = pos 0;
  hash = "t0";
  success = true;
  block_height = pos 7;
  gas_wanted = pos 10;
  gas_used = pos 9;
  memo = "";
  gas_fee = record { amount = pos 1; denom = "ugnot" };
  messages = [];
  response = record {
    log = "";
    info = "";
    error = "";
    data_text = "";
    events = mint_event ∷ move_event ∷ [];
  };
}

abbrev pub no_tables : Tables
no_tables = record { blocks = []; transactions = []; accounts = []; transfers = []; histories = [] }

abbrev pub fresh : Server
fresh = record { tables = no_tables; statements_left = 100 }

abbrev pub message : BlockWithTransactions
message = record { block = some seventh_block; transactions = tx ∷ [] }

pub no_tables-WellFormed : WellFormed no_tables
no_tables-WellFormed = record {
  heights = refl;
  addresses = tt;
  transactions = refl;
  transfers = refl;
}
