-- ===== src/BlockSynchronizer/Highest.antt =====
-- `GetHighestBlock` of the service, which asks `GetBlocks` for one block.
pub mod Laws
use gno_land_block_indexer.Prelude.{List, [], ◌∷◌}
use gno_land_block_indexer.Model.{Block}
use gno_land_block_indexer.Ent.Error.{Result, ok, err, wrap, not_found}
use gno_land_block_indexer.Ent.Database.{Database}
use gno_land_block_indexer.Repository.Blocks.{get_blocks}

module _ (D : Database) where
  open D use {State}

  -- The error of an empty table is a plain text; no test for a kind of error meets it.
  abbrev first_block : Result (List Block) → Result Block
  first_block (ok []) = err (wrap "no blocks found in database" not_found)
  first_block (ok (b ∷ bs)) = ok b
  first_block (err e) = err e

  unfoldable pub highest_block : State → Result Block
  highest_block s = first_block (get_blocks D 0 1 s)
