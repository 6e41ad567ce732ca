-- ===== src/BlockSynchronizer/Restore/Laws.antt =====
-- What a restore publishes.
use gno_land_block_indexer.Prelude.{
  ◌≡◌, refl, sym, ◌∙◌, ap, Bool, true, false, String, Option, none, some, List, [], ◌∷◌, ◌++◌,
  append-nil, append_assoc, ℤ, eq_ℤ, eq_ℤ_iff, keep, All, All-append, Bool-cases, inl, inr, ◌<ℤ◌,
}
use gno_land_block_indexer.Model.{Block, Transaction, BlockWithTransactions}
use gno_land_block_indexer.Ent.Database.{Database}
use gno_land_block_indexer.BlockSynchronizer.Poll.{Graphql}
use gno_land_block_indexer.BlockSynchronizer.Bus.{Bus, Published, Delivers}
use gno_land_block_indexer.BlockSynchronizer.Restore.{
  World, assemble, topic_block_with_txs, publish_bytes, publish_all,
}

-- A block with transactions of its own height, above `low`.
abbrev MatchedBlock : ℤ → Option Block → List Transaction → Type 0
MatchedBlock low none txs = ⊥
MatchedBlock low (some b) txs = (low <ℤ b.height) × All (λ tx. tx.block_height ≡ b.height) txs

abbrev pub IsMatched : ℤ → BlockWithTransactions → Type 0
IsMatched low m = MatchedBlock low m.block m.transactions

keep-heights :
    (h : ℤ) (txs : List Transaction)
    → All (λ tx. tx.block_height ≡ h) (keep (λ tx. eq_ℤ tx.block_height h) txs)
keep-heights h [] = tt
keep-heights h (tx ∷ txs) = elim (Bool-cases (eq_ℤ tx.block_height h)) [
  | inl y ↦ rw y ((eq_ℤ_iff tx.block_height h).0 y, keep-heights h txs)
  | inr n ↦ rw n (keep-heights h txs)
]

pub assemble-IsMatched :
    (low : ℤ) (txs : List Transaction) (bs : List Block)
    → All (λ b. low <ℤ b.height) bs
    → All (IsMatched low) (assemble txs bs)
unfolding assemble
assemble-IsMatched low txs [] h = tt
assemble-IsMatched low txs (b ∷ bs) (above, rest) =
    ((above, keep-heights b.height txs), assemble-IsMatched low txs bs rest)

module _ (D : Database) (B : Bus) (delivers : Delivers B) (G : Graphql)
    (marshal : BlockWithTransactions → Option String) where
  -- What was sent is the text of a block of which `P` holds.
  abbrev pub IsMessage : (BlockWithTransactions → Type 0) → String × String → Type 0
  IsMessage P tm =
      (tm.0 ≡ topic_block_with_txs)
      × ((m : BlockWithTransactions) × ((marshal m ≡ some tm.1) × P m))

  -- From one world to the next, only such messages were sent.
  abbrev pub Sends :
      (BlockWithTransactions → Type 0) → World D B G marshal → World D B G marshal → Type 0
  Sends P w w' =
      (ms : List (String × String)) × ((B.sent w'.bus ≡ B.sent w.bus ++ ms) × All (IsMessage P) ms)

  pub Sends-same :
      (P : BlockWithTransactions → Type 0) (w w' : World D B G marshal)
      → B.sent w'.bus ≡ B.sent w.bus
      → Sends P w w'
  Sends-same P w w' e = ([], (e ∙ sym (append-nil (B.sent w.bus)), tt))

  pub Sends-trans :
      (P : BlockWithTransactions → Type 0) (u v w : World D B G marshal)
      → Sends P u v
      → Sends P v w
      → Sends P u w
  Sends-trans P u v w (ms, (e, h)) (ns, (f, k)) = (
    ms ++ ns,
    (
      f ∙ ap (λ l. l ++ ns) e ∙ append_assoc (B.sent u.bus) ms ns,
      All-append (IsMessage P) ms ns h k,
    ),
  )

  bus_reply-Sends :
      (P : BlockWithTransactions → Type 0) (m : BlockWithTransactions) (bytes : String)
      (w : World D B G marshal) (out : Bool × B.State)
      → P m
      → marshal m ≡ some bytes
      → Published B topic_block_with_txs bytes w.bus out
      → Sends P w (record w { bus = out.1 })
  bus_reply-Sends P m bytes w (true, s) p e h =
      ((topic_block_with_txs, bytes) ∷ [], (h, ((refl, (m, (e, p))), tt)))
  bus_reply-Sends P m bytes w (false, s) p e h = Sends-same P w (record w { bus = s }) h

  publish_bytes-Sends :
      (P : BlockWithTransactions → Type 0) (m : BlockWithTransactions) (o : Option String)
      (w : World D B G marshal)
      → P m
      → marshal m ≡ o
      → Sends P w (publish_bytes D B G marshal o w).0
  publish_bytes-Sends P m none w p e = Sends-same P w w refl
  publish_bytes-Sends P m (some bytes) w p e =
      bus_reply-Sends P m bytes w (B.publish topic_block_with_txs bytes w.bus) p e
        (delivers topic_block_with_txs bytes w.bus)

  pub publish_all-Sends :
      (P : BlockWithTransactions → Type 0) (l : List BlockWithTransactions)
      (w : World D B G marshal)
      → All P l
      → Sends P w (publish_all D B G marshal l w)
  unfolding publish_all
  publish_all-Sends P [] w h = Sends-same P w w refl
  publish_all-Sends P (m ∷ l) w (p, h) =
      let w' = (publish_bytes D B G marshal (marshal m) w).0 in
      Sends-trans P w w' (publish_all D B G marshal l w')
        (publish_bytes-Sends P m (marshal m) w p refl) (publish_all-Sends P l w' h)
