-- ===== src/BlockSynchronizer/Highest/Laws.antt =====
-- The service's highest block is that of the repository.
use gno_land_block_indexer.Ent.Error.{Error, driver, wrap}
use gno_land_block_indexer.Prelude.{Option, none, some, List, [], ◌∷◌, take, refl, inl, inr}
use gno_land_block_indexer.Ent.Tables.{BlockRow}
use gno_land_block_indexer.Ent.Client.{all_nodes}
use gno_land_block_indexer.Ent.Database.{Database, IsLawful, Answers, order_by, height_desc}
use gno_land_block_indexer.Repository.Blocks.{found_blocks, get_blocks}
use gno_land_block_indexer.Repository.Blocks.Highest.{IsTop, order_by-IsTop, IsHighest}
use gno_land_block_indexer.BlockSynchronizer.Highest.{first_block, highest_block}

abbrev driver_failure : Error
driver_failure = wrap "failed to get blocks" driver

module _ (D : Database) (L : IsLawful D) where
  open D use {State, tables}

  first-IsHighest :
      (o : Option (List BlockRow)) (l rs : List BlockRow)
      → IsTop l rs
      → Answers o (take 1 l)
      → IsHighest driver_failure rs (first_block D (found_blocks D (all_nodes o)))
  first-IsHighest none l rs h k = inr refl
  first-IsHighest (some rows) [] rs h k = rw k (inl h)
  first-IsHighest (some rows) (q ∷ l) rs h k = rw k (q, h.1, (refl, refl, refl, refl, refl), h.0)

  -- On a lawful database, `GetHighestBlock` of the service returns the block of a highest stored row, field
  -- for field; it returns an error only if no block is stored or the driver fails.
  pub highest_block-IsHighest :
      (s : State) → IsHighest driver_failure (tables s).blocks (highest_block D s)
  unfolding highest_block get_blocks
  highest_block-IsHighest s =
      first-IsHighest (D.select_blocks_desc 0 (some 1) s) (order_by height_desc (tables s).blocks)
        (tables s).blocks (order_by-IsTop (tables s).blocks)
        (L.select_blocks_desc-Answers 0 (some 1) s)
