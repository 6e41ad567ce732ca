-- ===== src/Tests/Storage.antt =====
-- The repository on an empty database.
use gno_land_block_indexer.Prelude.{
  ◌≡◌, ◌≢◌, refl, false, String, some, [], ◌∷◌, map, pos, All, inl, inr,
}
use gno_land_block_indexer.Ent.Error.{ok, driver, wrap}
use gno_land_block_indexer.Ent.Post.{Post, Fails}
use gno_land_block_indexer.Model.{Transfer}
use gno_land_block_indexer.Ent.Tables.{TransferRow}
use gno_land_block_indexer.Ent.Memory.{Server, memory, memory-IsLawful}
use gno_land_block_indexer.Repository.Blocks.{add_block, block_row, get_block, get_highest_block}
use gno_land_block_indexer.Repository.Blocks.Laws.{
  Added, add_block-Added, Finds, get_block-add_block,
}
use gno_land_block_indexer.Repository.Blocks.Highest.{IsHighest, get_highest_block-IsHighest}
use gno_land_block_indexer.Repository.Transactions.{
  transaction_row, transaction_model, add_transactions,
}
use gno_land_block_indexer.Repository.Transactions.Laws.{transaction_round_trip}
use gno_land_block_indexer.Repository.Transactions.Reported.{
  IsReported, add_transactions-IsReported,
}
use gno_land_block_indexer.Repository.Transfers.{get_transfers, transfer_model, add_transfers}
use gno_land_block_indexer.Repository.Transfers.Rejected.{add_transfers-Fails}
use gno_land_block_indexer.Repository.Transfers.Laws.{BothAre, get_transfers_self}
use gno_land_block_indexer.BlockSynchronizer.Highest.{highest_block}
use gno_land_block_indexer.BlockSynchronizer.Highest.Laws.{highest_block-IsHighest}
use gno_land_block_indexer.Tests.Data.{seventh_block, tx, fresh, no_tables}

add_block-Added_example :
    Post
      (add_block memory 5 seventh_block fresh)
      (Added memory memory-IsLawful no_tables (block_row 5 seventh_block))
      (λ s. s.tables ≡ no_tables)
add_block-Added_example = add_block-Added memory memory-IsLawful 5 seventh_block fresh

abbrev added : Server
added = (add_block memory 5 seventh_block fresh).1

adds : add_block memory 5 seventh_block fresh ≡ (ok false, added)
unfolding add_block gno_land_block_indexer.Ent.Client.save_block
    gno_land_block_indexer.Ent.Client.block_check
adds = refl

get_block-add_block_example :
    Finds memory memory-IsLawful seventh_block (get_block memory (pos 7) added)
get_block-add_block_example =
    get_block-add_block memory memory-IsLawful 5 seventh_block fresh added adds

get_highest_block-IsHighest_example :
    IsHighest
      (wrap "failed to get highest block" driver)
      added.tables.blocks
      (get_highest_block memory added)
get_highest_block-IsHighest_example = get_highest_block-IsHighest memory memory-IsLawful added

transaction_round_trip_example : transaction_model (transaction_row 5 (pos 7) tx) ≡ tx
transaction_round_trip_example = transaction_round_trip 5 (pos 7) tx

add_transactions-IsReported_example :
    IsReported memory memory-IsLawful
      (map (transaction_row 5 (pos 7)) (tx ∷ []))
      added
      (add_transactions memory 5 (pos 7) (tx ∷ []) added)
add_transactions-IsReported_example =
    add_transactions-IsReported memory memory-IsLawful 5 (pos 7) (tx ∷ []) added

abbrev row : String → String → TransferRow
row a b = record {
  hash = "t0";
  func = "transfer";
  from_address = some a;
  to_address = some b;
  token = "foo";
  amount = pos 1;
  denom = "ugnot";
  created_at = 5;
}

abbrev with_transfers : Server
with_transfers = record {
  tables = record no_tables { transfers = row "alice" "bob" ∷ row "alice" "alice" ∷ [] };
  statements_left = 9;
}

abbrev alice : String
alice = "alice"

alice_ne : alice ≢ ""
alice_ne = cc

gets_one :
    get_transfers memory alice alice "" with_transfers ≡ ok (transfer_model (row alice alice) ∷ [])
unfolding get_transfers
gets_one = refl

get_transfers_self_example :
    All (BothAre memory memory-IsLawful alice) (transfer_model (row alice alice) ∷ [])
get_transfers_self_example =
    get_transfers_self memory memory-IsLawful alice "" with_transfers
      (transfer_model (row alice alice) ∷ []) alice_ne gets_one

seen_by_service :
    IsHighest (wrap "failed to get blocks" driver) added.tables.blocks (highest_block memory added)
seen_by_service = highest_block-IsHighest memory memory-IsLawful added

abbrev zero_transfer : Transfer
zero_transfer = record {
  func = "Transfer";
  from_address = "alice";
  to_address = "bob";
  token = "gno.land/r/foo";
  amount = pos 0;
  denom = "ugnot";
  created_at = 5;
}

abbrev one_transfer : Transfer
one_transfer = record zero_transfer { amount = pos 1 }

add_transfers-Fails_example :
    Fails (add_transfers memory 5 tx (one_transfer ∷ zero_transfer ∷ []) fresh) (λ s'. s' ≡ fresh)
add_transfers-Fails_example =
    add_transfers-Fails memory 5 tx zero_transfer (one_transfer ∷ zero_transfer ∷ []) fresh
      (inr (inl refl)) refl
