-- ===== src/BlockSynchronizer/Restore/Resume.antt =====
-- A restore of a database that has no history yet.
use gno_land_block_indexer.Prelude.{ℕ, ◌≡◌, refl, Option, String, [], ℤ, pos, arith}
use gno_land_block_indexer.Model.{BlockWithTransactions}
use gno_land_block_indexer.Ent.Error.{Result, ok, err}
use gno_land_block_indexer.Ent.Database.{Database, IsLawful}
use gno_land_block_indexer.BlockSynchronizer.Poll.{Graphql, HonoursBlocks}
use gno_land_block_indexer.BlockSynchronizer.Poll.Laws.{HasRoom}
use gno_land_block_indexer.BlockSynchronizer.Bus.{Bus, Delivers}
use gno_land_block_indexer.BlockSynchronizer.History.{get_not_sequential_block_num}
use gno_land_block_indexer.BlockSynchronizer.History.Laws.{
  StartsAt, get_not_sequential_block_num-fresh,
}
use gno_land_block_indexer.BlockSynchronizer.Restore.{
  World, Latest, subscribe_failed, context_done, received, restore_at,
  restore_missing_block_and_transactions,
}
use gno_land_block_indexer.BlockSynchronizer.Restore.Laws.{IsMatched, Sends, Sends-same}
use gno_land_block_indexer.BlockSynchronizer.Restore.Windows.{restore_from-Sends}

module _ (D : Database) (L : IsLawful D) (B : Bus) (delivers : Delivers B) (G : Graphql)
    (marshal : BlockWithTransactions → Option String) where
  abbrev SendsAbove : ℤ → World D B G marshal → World D B G marshal → Type 0
  SendsAbove low = Sends D B delivers G marshal (IsMatched low)

  restore_at-Sends :
      (fuel : ℕ) (top : ℤ) (r : Result ℤ) (w : World D B G marshal)
      → HonoursBlocks G
      → HasRoom top 101
      → StartsAt (pos 1) r
      → SendsAbove (pos 1) w (restore_at D B G marshal fuel top r w).1
  restore_at-Sends fuel top (err e) w honours room h =
      Sends-same D B delivers G marshal (IsMatched (pos 1)) w w refl
  restore_at-Sends fuel top (ok start) w honours room h =
      restore_from-Sends D B delivers G marshal fuel (pos 1) start top w honours room (ground arith)
        (ground arith)

  -- The latest block's height leaves room for a window.
  abbrev LatestHasRoom : Latest → Type 0
  LatestHasRoom (subscribe_failed e) = Unit
  LatestHasRoom context_done = Unit
  LatestHasRoom (received b) = HasRoom b.height 101

  -- Under the same conditions on the server, the broker and the latest height, and on a lawful
  -- database: a restore with no history sends only blocks above height 1, each with
  -- transactions of its own height: the block of height 1 is never sent.
  pub restore_missing-Sends :
      (fuel : ℕ) (latest : Latest) (w : World D B G marshal)
      → HonoursBlocks G
      → LatestHasRoom latest
      → (D.tables w.db).histories ≡ []
      → SendsAbove (pos 1) w (restore_missing_block_and_transactions D B G marshal fuel latest w).1
  unfolding restore_missing_block_and_transactions
  restore_missing-Sends fuel (subscribe_failed e) w honours room fresh =
      Sends-same D B delivers G marshal (IsMatched (pos 1)) w w refl
  restore_missing-Sends fuel context_done w honours room fresh =
      restore_at-Sends fuel (pos 0) (get_not_sequential_block_num D (pos 0) w.db) w honours
        (ground arith) (get_not_sequential_block_num-fresh D L (pos 0) w.db fresh)
  restore_missing-Sends fuel (received b) w honours room fresh =
      restore_at-Sends fuel b.height (get_not_sequential_block_num D b.height w.db) w honours room
        (get_not_sequential_block_num-fresh D L b.height w.db fresh)
