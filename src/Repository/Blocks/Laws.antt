-- ===== src/Repository/Blocks/Laws.antt =====
-- What the block operations do to the table, and what a read finds after a write.
use gno_land_block_indexer.Prelude.{
  ◌≡◌, Bool, true, false, Option, none, some, List, [], ◌∷◌, ◌++◌, eq_ℤ, eq_ℤ_iff, take, keep,
  arith, refl,
}
use gno_land_block_indexer.Model.{Time, Block}
use gno_land_block_indexer.Ent.Error.{Result, ok, err, only_node, driver, wrap}
use gno_land_block_indexer.Ent.Tables.{Tables, BlockRow, has_block, blocks_fit}
use gno_land_block_indexer.Ent.Database.{
  Database, IsLawful, Answers, Reply, accepted, refused, failed, Write, done, broken, lost,
}
use gno_land_block_indexer.Ent.Client.{reply_result, block_check, save_block, then_nodes}
use gno_land_block_indexer.Ent.Post.{Post}
use gno_land_block_indexer.Repository.Blocks.{
  block_row, block_model, block_added, add_block, found_block, get_block,
}

abbrev pub with_blocks : Tables → List BlockRow → Tables
with_blocks ts rs = record ts { blocks = rs }

module _ (D : Database) (L : IsLawful D) where
  open D use {State, tables}

  -- What `AddBlock` says of the block, and what it has done.
  abbrev pub Added : Tables → BlockRow → Bool → State → Type 0
  Added ts r true s = (has_block r.height ts.blocks ≡ true) × (tables s ≡ ts)
  Added ts r false s =
      (has_block r.height ts.blocks ≡ false) × (tables s ≡ with_blocks ts (ts.blocks ++ r ∷ []))

  block_added-Added :
      (r : BlockRow) (s : State) (out : Reply × State)
      → let ts = tables s in
        Write D (blocks_fit (r ∷ []) ts.blocks) (with_blocks ts (ts.blocks ++ r ∷ [])) s out
        → Post (block_added (reply_result out.0, out.1)) (Added ts r) (λ s'. tables s' ≡ ts)
  block_added-Added r s (accepted, s') (done f a e) = (ground arith, e)
  block_added-Added r s (accepted, s') (broken f a e) = cc
  block_added-Added r s (accepted, s') (lost a e) = cc
  block_added-Added r s (refused, s') (done f a e) = cc
  block_added-Added r s (refused, s') (broken f a e) = (ground arith, e)
  block_added-Added r s (refused, s') (lost a e) = cc
  block_added-Added r s (failed, s') (done f a e) = cc
  block_added-Added r s (failed, s') (broken f a e) = cc
  block_added-Added r s (failed, s') (lost a e) = e

  -- On a lawful database, a block of a new height is appended and reported as new; one whose height
  -- is taken is reported so, and nothing changes; on an error nothing changes.
  pub add_block-Added :
      (now : Time) (b : Block) (s : State)
      → Post (add_block D now b s) (Added (tables s) (block_row now b)) (λ s'. tables s' ≡ tables s)
  unfolding add_block save_block block_check
  add_block-Added now b s = ground (
    arith,
    block_added-Added (block_row now b) s (D.insert_blocks (block_row now b ∷ []) s)
        (L.insert_blocks-Write (block_row now b ∷ []) s),
  )

  keep-new :
      (r : BlockRow) (rs : List BlockRow)
      → has_block r.height rs ≡ false
      → keep (λ q. eq_ℤ q.height r.height) (rs ++ r ∷ []) ≡ r ∷ []
  keep-new r [] h = ground (arith, eq_ℤ_iff r.height r.height)
  keep-new r (q ∷ rs) h = ground (arith, keep-new r rs)

  -- `GetBlock`'s answer is the block, or the driver's error.
  abbrev pub Finds : Block → Result Block → Type 0
  Finds b (ok c) = c ≡ b
  Finds b (err e) = e ≡ wrap "failed to get block" driver

  found-Finds :
      (r : BlockRow) (o : Option (List BlockRow)) (rows : List BlockRow)
      → rows ≡ r ∷ []
      → Answers o (take 2 rows)
      → Finds (block_model r) (found_block D (then_nodes o only_node))
  found-Finds r none rows e h = refl
  found-Finds r (some l) rows e h = ground arith

  found_after :
      (b : Block) (now : Time) (s s' : State)
      → Added (tables s) (block_row now b) false s'
      → Finds b (get_block D b.height s')
  unfolding get_block
  found_after b now s s' (fresh, after) =
      found-Finds (block_row now b) (D.select_block b.height 2 s')
        (keep (λ q. eq_ℤ q.height b.height) (tables s').blocks)
        (rw after (keep-new (block_row now b) (tables s).blocks fresh))
        (L.select_block-Answers b.height 2 s')

  -- On a lawful database, a block that `AddBlock` reported as new is what `GetBlock` then returns for
  -- its height, field for field, unless the driver fails.
  pub get_block-add_block :
      (now : Time) (b : Block) (s s' : State)
      → add_block D now b s ≡ (ok false, s')
      → Finds b (get_block D b.height s')
  get_block-add_block now b s s' e = found_after b now s s' (rw e at (add_block-Added now b s))
