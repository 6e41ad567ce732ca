-- ===== src/BlockSynchronizer/Restore/Single.antt =====
-- What a worker publishes for a new block.
use gno_land_block_indexer.Prelude.{
  ◌≡◌, refl, Bool, true, false, String, Option, none, some, List, [], ◌∷◌, ◌++◌, ℤ, pos, ◌+ℤ◌,
  +ℤ_parts, eq_of_parts, All, All-map, arith,
}
use gno_land_block_indexer.Model.{Block, Transaction, BlockWithTransactions}
use gno_land_block_indexer.Ent.Error.{Result, ok, err}
use gno_land_block_indexer.Ent.Action.{annotate, ◌>>=◌}
use gno_land_block_indexer.Ent.Post.{Post}
use gno_land_block_indexer.Ent.Database.{Database}
use gno_land_block_indexer.BlockSynchronizer.Poll.{Graphql, HonoursTransactions, poll_transactions}
use gno_land_block_indexer.BlockSynchronizer.Poll.Laws.{
  HasRoom, InWindow, poll_transactions-InWindow,
}
use gno_land_block_indexer.BlockSynchronizer.Bus.{Bus, Published, Delivers}
use gno_land_block_indexer.BlockSynchronizer.Restore.{
  World, lift, topic_block_with_txs, publish_one, publish_reply, process_block_with_transactions,
}

only_next : (h x : ℤ) → InWindow h 1 x → x ≡ h +ℤ pos 1
only_next h x (above, below) =
    eq_of_parts x (h +ℤ pos 1) (omega (arith, +ℤ_parts h (pos 1), +ℤ_parts h (pos 2)))

module _ (D : Database) (B : Bus) (delivers : Delivers B) (G : Graphql)
    (marshal : BlockWithTransactions → Option String) where
  -- One message was sent: the text of the block with transactions of the height after it.
  abbrev pub SentNext : Block → World D B G marshal → World D B G marshal → Type 0
  SentNext b w w' =
      (txs : List Transaction) × ((bytes : String) × ((marshal
              (record { block = some b; transactions = txs })
            ≡ some bytes)
          × ((B.sent w'.bus ≡ B.sent w.bus ++ (topic_block_with_txs, bytes) ∷ [])
              × All (λ tx. tx.block_height ≡ b.height +ℤ pos 1) txs)))

  abbrev SentNone : World D B G marshal → World D B G marshal → Type 0
  SentNone w w' = B.sent w'.bus ≡ B.sent w.bus

  sent_out :
      (b : Block) (txs : List Transaction) (bytes : String) (w : World D B G marshal)
      (out : Bool × B.State)
      → All (λ tx. tx.block_height ≡ b.height +ℤ pos 1) txs
      → marshal (record { block = some b; transactions = txs }) ≡ some bytes
      → Published B topic_block_with_txs bytes w.bus out
      → Post
          (publish_reply D B G marshal (record w { bus = out.1 }, out.0))
          (λ _ w'. SentNext b w w')
          (λ w'. SentNone w w')
  sent_out b txs bytes w (true, s) all m h = (txs, (bytes, (m, (h, all))))
  sent_out b txs bytes w (false, s) all m h = h

  published_one :
      (b : Block) (txs : List Transaction) (o : Option String) (w : World D B G marshal)
      → All (λ tx. tx.block_height ≡ b.height +ℤ pos 1) txs
      → marshal (record { block = some b; transactions = txs }) ≡ o
      → Post (publish_one D B G marshal o w) (λ _ w'. SentNext b w w') (λ w'. SentNone w w')
  published_one b txs none w all m = refl
  published_one b txs (some bytes) w all m =
      sent_out b txs bytes w (B.publish topic_block_with_txs bytes w.bus) all m
        (delivers topic_block_with_txs bytes w.bus)

  polled_one :
      (b : Block) (r : Result (List Transaction)) (w : World D B G marshal)
      → ((txs : List Transaction)
          → r ≡ ok txs
          → All (λ tx. tx.block_height ≡ b.height +ℤ pos 1) txs)
      → Post
          ((annotate "failed to poll transactions" (lift D B G marshal r) >>= (λ txs.
              publish_one D B G marshal (marshal (record { block = some b; transactions = txs }))))
            w)
          (λ _ w'. SentNext b w w')
          (λ w'. SentNone w w')
  polled_one b (err e) w h = refl
  polled_one b (ok txs) w h = published_one b txs _ w (h txs refl) refl

  -- If the server keeps to the bounds of a query, the broker sends what it accepts, and the height is
  -- no border of the 64-bit numbers: a worker that returns no error has sent one message: the new block, with transactions of the
  -- height after it and none of its own. One that returns an error has sent nothing.
  pub process_block-SentNext :
      (b : Block) (w : World D B G marshal)
      → HonoursTransactions G
      → HasRoom b.height 2
      → Post
          (process_block_with_transactions D B G marshal b w)
          (λ _ w'. SentNext b w w')
          (λ w'. SentNone w w')
  unfolding process_block_with_transactions
  process_block-SentNext b w honours room =
      polled_one b (poll_transactions G b.height (pos 1)) w (λ txs e.
        All-map (λ tx. InWindow b.height 1 tx.block_height)
          (λ tx. tx.block_height ≡ b.height +ℤ pos 1) txs
          (λ tx k. only_next b.height tx.block_height k)
          (poll_transactions-InWindow G b.height 1 txs honours room e))
