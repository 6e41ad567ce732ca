-- ===== src/Repository/Blocks.antt =====
-- The block operations: `AddBlock`, `AddBlocks`, `GetBlock`, `GetBlocks` and `GetHighestBlock`.
-- `now` is what `time.Now` returns.
pub mod Laws
pub mod Highest
use gno_land_block_indexer.Prelude.{
  ℕ, Bool, true, false, Option, none, some, List, [], ◌∷◌, map, ℤ, if◌then◌else◌,
}
use gno_land_block_indexer.Model.{Time, Block}
use gno_land_block_indexer.Ent.Error.{
  Error, Result, ok, err, wrap, is_constraint_error, only_node, first_node,
}
use gno_land_block_indexer.Ent.Tables.{BlockRow}
use gno_land_block_indexer.Ent.Database.{Database}
use gno_land_block_indexer.Ent.Client.{save_block, save_blocks, then_nodes, all_nodes}

abbrev pub block_row : Time → Block → BlockRow
block_row now b = record {
  height = b.height;
  hash = b.hash;
  time = b.time;
  total_txs = b.total_txs;
  num_txs = b.num_txs;
  created_at = now;
}

abbrev pub block_model : BlockRow → Block
block_model r = record {
  hash = r.hash;
  height = r.height;
  time = r.time;
  total_txs = r.total_txs;
  num_txs = r.num_txs;
}

-- The end of `AddBlock`: a constraint error means that the block is there already.
abbrev pub block_added : {S : Type 0} → Result (Unit {0}) × S → Result Bool × S
block_added (ok _, s) = (ok false, s)
block_added (err e, s) =
    (if is_constraint_error e then ok true else err (wrap "failed to add block" e), s)

module _ (D : Database) where
  open D use {State}

  unfoldable pub add_block : Time → Block → State → Result Bool × State
  add_block now b s = block_added (save_block D (block_row now b) s)

  abbrev blocks_added : Result (Unit {0}) × State → Result (Unit {0}) × State
  blocks_added (ok _, s) = (ok tt, s)
  blocks_added (err e, s) = (err (wrap "failed to add blocks" e), s)

  unfoldable pub add_blocks : Time → List Block → State → Result (Unit {0}) × State
  add_blocks now [] s = (ok tt, s)
  add_blocks now (b ∷ bs) s = blocks_added (save_blocks D (map (block_row now) (b ∷ bs)) s)

  abbrev found_block : Result BlockRow → Result Block
  found_block (ok r) = ok (block_model r)
  found_block (err e) = err (wrap "failed to get block" e)

  unfoldable pub get_block : ℤ → State → Result Block
  get_block h s = found_block (then_nodes (D.select_block h 2 s) only_node)

  abbrev pub found_blocks : Result (List BlockRow) → Result (List Block)
  found_blocks (ok rs) = ok (map block_model rs)
  found_blocks (err e) = err (wrap "failed to get blocks" e)

  unfoldable pub get_blocks : ℕ → ℕ → State → Result (List Block)
  get_blocks offset limit s = found_blocks (all_nodes (D.select_blocks_desc offset (some limit) s))

  abbrev found_highest : Result BlockRow → Result Block
  found_highest (ok r) = ok (block_model r)
  found_highest (err e) = err (wrap "failed to get highest block" e)

  unfoldable pub get_highest_block : State → Result Block
  get_highest_block s = found_highest (then_nodes (D.select_blocks_desc 0 (some 1) s) first_node)
