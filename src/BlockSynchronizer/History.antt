-- ===== src/BlockSynchronizer/History.antt =====
-- cmd/block-synchronizer/repository/repository_ent.go: where a restore resumes.
pub mod Laws
use gno_land_block_indexer.Prelude.{Bool, Option, none, some, List, [], ◌∷◌, ℤ, pos, if◌then◌else◌}
use gno_land_block_indexer.Ent.Error.{Result, ok, err, wrap, is_not_found, first_node}
use gno_land_block_indexer.Ent.Tables.{HistoryRow}
use gno_land_block_indexer.Ent.Database.{Database}
use gno_land_block_indexer.Ent.Client.{then_nodes, reply_result}

abbrev pub history_row : ℤ → ℤ → HistoryRow
history_row start_block end_block = record {
  id = pos 1;
  restore_range_start = start_block;
  restore_range_end = end_block;
  being_block = pos 0;
}

module _ (D : Database) where
  open D use {State}

  abbrev start_of : Result HistoryRow → Result ℤ
  start_of (ok r) = ok r.restore_range_start
  start_of (err e) =
      if is_not_found e then ok (pos 1) else err (wrap "Error querying restoring history" e)

  -- `GetNotSequentialBlockNum`; its argument `limit` is not used.
  unfoldable pub get_not_sequential_block_num : ℤ → State → Result ℤ
  get_not_sequential_block_num limit s =
      start_of (then_nodes (D.select_history (pos 1) 1 s) first_node)

  abbrev pub history_saved : Result (Unit {0}) × State → Result (Unit {0}) × State
  history_saved (ok _, s) = (ok tt, s)
  history_saved (err e, s) = (err (wrap "failed to save restoring history" e), s)

  -- `SaveRestoringHistory` keeps one row, of id 1.
  unfoldable pub save_restoring_history : ℤ → ℤ → State → Result (Unit {0}) × State
  save_restoring_history start_block end_block s =
      let (r, s') = D.upsert_history (history_row start_block end_block) s in
      history_saved (reply_result r, s')
