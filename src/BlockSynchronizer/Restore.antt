-- ===== src/BlockSynchronizer/Restore.antt =====
-- `RestoreMissingBlockAndTransactions` and `processBlockWithTransactions`. `marshal` is
-- `json.Marshal` on a block with its transactions.
pub mod Laws
pub mod Windows
pub mod Termination
pub mod Resume
pub mod Single
pub mod Delivery
pub mod Round
pub mod Completeness
use gno_land_block_indexer.Prelude.{
  ℕ, zero, suc, Bool, true, false, String, Option, none, some, List, [], ◌∷◌, map, ℤ, pos, ltb_ℤ,
  eq_ℤ, add64, keep, if◌then◌else◌,
}
use gno_land_block_indexer.Model.{Block, Transaction, BlockWithTransactions}
use gno_land_block_indexer.Ent.Error.{Error, Result, ok, err, wrap, network, bad_message}
use gno_land_block_indexer.Ent.Action.{Action, pure, fail, ◌>>=◌, ◌>>◌, annotate}
use gno_land_block_indexer.Ent.Database.{Database}
use gno_land_block_indexer.BlockSynchronizer.Poll.{Graphql, poll_blocks, poll_transactions}
use gno_land_block_indexer.BlockSynchronizer.History.{
  get_not_sequential_block_num, save_restoring_history,
}
use gno_land_block_indexer.BlockSynchronizer.Bus.{Bus}

abbrev pub topic_block_with_txs : String
topic_block_with_txs = "block_with_txs"

-- What came of the subscription for one block: it failed, or the context was done before a block
-- came, or a block came. (If it ends with neither, the `select` waits.)
pub data Latest : Type 0 where
  subscribe_failed : Error → Latest
  context_done : Latest
  received : Block → Latest

-- The height that the restore goes up to; the zero block has height 0.
abbrev latest_height : Latest → Result ℤ
latest_height (subscribe_failed e) = err (wrap "failed to subscribe to latest block" e)
latest_height context_done = ok (pos 0)
latest_height (received b) = ok b.height

-- Each block with the polled transactions of its height.
unfoldable pub assemble : List Transaction → List Block → List BlockWithTransactions
assemble txs [] = []
assemble txs (b ∷ bs) =
    record { block = some b; transactions = keep (λ tx. eq_ℤ tx.block_height b.height) txs }
    ∷ assemble txs bs

-- The loop's next round, or its `break`.
pub data Turn : Type 0 where
  stop next : Turn

module _ (D : Database) (B : Bus) (G : Graphql)
    (marshal : BlockWithTransactions → Option String) where
  -- The synchronizer's world: its history table and what it has published.
  pub record World : Type 0 where
    pub db : D.State
    pub bus : B.State

  abbrev pub lift {ℓ} : {A : Type ℓ} → Result A → World → Result A × World
  lift r w = (r, w)

  abbrev pub on_db : {A : Type 0} → Action D.State A → Action World A
  on_db act w = let (r, s) = act w.db in (r, record w { db = s })

  abbrev publish_bytes : Option String → World → World × Bool
  publish_bytes none w = (w, false)
  publish_bytes (some bytes) w =
      let (done, s) = B.publish topic_block_with_txs bytes w.bus in (record w { bus = s }, done)

  -- A message that cannot be encoded or published is only logged.
  unfoldable pub publish_all : List BlockWithTransactions → World → World
  publish_all [] w = w
  publish_all (m ∷ ms) w = publish_all ms (publish_bytes (marshal m) w).0

  abbrev pub publish_window : List Block → List Transaction → Action World Turn
  publish_window blocks txs w = (ok next, publish_all (assemble txs blocks) w)

  -- One round of the loop, at the offset `i`.
  abbrev pub restore_blocks : ℤ → List Block → Action World Turn
  restore_blocks i [] = pure stop
  restore_blocks i (b ∷ bs) = do
    annotate "failed to save restoring history"
        (on_db (save_restoring_history D i (add64 i (pos 100))))
    txs ← annotate "failed to poll transactions" (lift (poll_transactions G i (pos 100)))
    publish_window (b ∷ bs) txs

  unfoldable pub restore_window : ℤ → Action World Turn
  restore_window i = do
    blocks ← annotate "failed to poll blocks" (lift (poll_blocks G i (pos 100)))
    restore_blocks i blocks

  abbrev after_window :
      (World → Option (Result (Unit {0})) × World)
      → Result Turn × World
      → Option (Result (Unit {0})) × World
  after_window rest (ok next, w) = rest w
  after_window rest (ok stop, w) = (some (ok tt), w)
  after_window rest (err e, w) = (some (err e), w)

  abbrev while_below :
      Bool
      → (World → Option (Result (Unit {0})) × World)
      → ℤ
      → World
      → Option (Result (Unit {0})) × World
  while_below false rest i w = (some (ok tt), w)
  while_below true rest i w = after_window rest (restore_window i w)

  -- `for i := start; i < top; i += 100`; `none` means that the fuel ran out.
  unfoldable pub restore_from : ℕ → ℤ → ℤ → World → Option (Result (Unit {0})) × World
  restore_from zero i top w = (none, w)
  restore_from (suc fuel) i top w =
      while_below (ltb_ℤ i top) (restore_from fuel (add64 i (pos 100)) top) i w

  abbrev restore_at : ℕ → ℤ → Result ℤ → World → Option (Result (Unit {0})) × World
  restore_at fuel top (err e) w =
      (some (err (wrap "failed to get not sequential block number" e)), w)
  restore_at fuel top (ok start) w = restore_from fuel start top w

  abbrev restore_up_to : ℕ → Result ℤ → World → Option (Result (Unit {0})) × World
  restore_up_to fuel (err e) w = (some (err e), w)
  restore_up_to fuel (ok top) w = restore_at fuel top (get_not_sequential_block_num D top w.db) w

  unfoldable pub restore_missing_block_and_transactions :
      ℕ → Latest → World → Option (Result (Unit {0})) × World
  restore_missing_block_and_transactions fuel latest w = restore_up_to fuel (latest_height latest) w

  abbrev publish_reply : World × Bool → Result (Unit {0}) × World
  publish_reply (w, true) = (ok tt, w)
  publish_reply (w, false) = (err (wrap "failed to publish block with transactions" network), w)

  abbrev publish_one : Option String → Action World (Unit {0})
  publish_one none w = (err (wrap "failed to marshal block with transactions" bad_message), w)
  publish_one (some bytes) w = publish_reply (publish_bytes (some bytes) w)

  -- What a worker does with a new block.
  unfoldable pub process_block_with_transactions : Block → Action World (Unit {0})
  process_block_with_transactions b = do
    txs ← annotate "failed to poll transactions" (lift (poll_transactions G b.height (pos 1)))
    publish_one (marshal (record { block = some b; transactions = txs }))
