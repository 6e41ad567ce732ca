-- ===== src/BlockSynchronizer/Restore/Delivery.antt =====
-- Publishing on a bus that accepts every message.
use gno_land_block_indexer.Prelude.{
  ◌≡◌, sym, Bool, true, false, String, Option, some, List, [], ◌∷◌, ◌⊎◌, inl, inr, Among,
  Among-append_left, Among-append_last,
}
use gno_land_block_indexer.Model.{BlockWithTransactions}
use gno_land_block_indexer.Ent.Database.{Database}
use gno_land_block_indexer.BlockSynchronizer.Poll.{Graphql}
use gno_land_block_indexer.BlockSynchronizer.Bus.{Bus, Published, Delivers}
use gno_land_block_indexer.BlockSynchronizer.Restore.{
  World, topic_block_with_txs, publish_bytes, publish_all,
}

-- No message is refused.
abbrev pub Accepts : Bus → Type 0
Accepts B = (topic m : String) (s : B.State) → (B.publish topic m s).0 ≡ true

module _ (D : Database) (B : Bus) (delivers : Delivers B) (accepts : Accepts B) (G : Graphql)
    (encode : BlockWithTransactions → String) where
  abbrev pub marshal : BlockWithTransactions → Option String
  marshal m = some (encode m)

  abbrev pub Worlds : Type 0
  Worlds = World D B G marshal

  -- The message for `m` was sent.
  abbrev pub IsSent : BlockWithTransactions → Worlds → Type 0
  IsSent m w = Among (topic_block_with_txs, encode m) (B.sent w.bus)

  -- What was sent stays sent.
  abbrev pub Grows : Worlds → Worlds → Type 0
  Grows w w' = (m : BlockWithTransactions) → IsSent m w → IsSent m w'

  reply_out :
      (m : BlockWithTransactions) (w : Worlds) (out : Bool × B.State)
      → out.0 ≡ true
      → Published B topic_block_with_txs (encode m) w.bus out
      → Grows w (record w { bus = out.1 }) × IsSent m (record w { bus = out.1 })
  reply_out m w (false, s) y h = cc
  reply_out m w (true, s) y h = (
    λ n k. rw h (Among-append_left (topic_block_with_txs, encode n) (B.sent w.bus) _ k),
    rw h (Among-append_last (topic_block_with_txs, encode m) (B.sent w.bus)),
  )

  one_of :
      (n m : BlockWithTransactions) (ms : List BlockWithTransactions) (w w' : Worlds)
      → IsSent m w
      → Grows w w'
      → ((k : BlockWithTransactions) → Among k ms → IsSent k w')
      → (m ≡ n) ⊎ Among n ms
      → IsSent n w'
  one_of n m ms w w' first grows rest (inl e) = rw (sym e) (grows m first)
  one_of n m ms w w' first grows rest (inr k) = rest n k

  -- Publishing a list sends each of its messages.
  pub publish_all-IsSent :
      (ms : List BlockWithTransactions) (w : Worlds)
      → Grows w (publish_all D B G marshal ms w)
        × ((m : BlockWithTransactions) → Among m ms → IsSent m (publish_all D B G marshal ms w))
  unfolding publish_all
  publish_all-IsSent [] w = (λ n k. k, λ m k. absurd k)
  publish_all-IsSent (m ∷ ms) w =
      let w' = (publish_bytes D B G marshal (marshal m) w).0 in
      let first =
        reply_out m w (B.publish topic_block_with_txs (encode m) w.bus)
          (accepts topic_block_with_txs (encode m) w.bus)
          (delivers topic_block_with_txs (encode m) w.bus) in
      let rest = publish_all-IsSent ms w' in
      (
        λ n k. rest.0 n (first.0 n k),
        λ n k. one_of n m ms w' (publish_all D B G marshal ms w') first.1 rest.0 rest.1 k,
      )
