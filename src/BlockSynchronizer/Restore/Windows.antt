-- ===== src/BlockSynchronizer/Restore/Windows.antt =====
-- What the loop of the restore sends, however it ends.
use gno_land_block_indexer.Prelude.{
  ℕ, zero, suc, ◌≡◌, refl, Bool, true, false, String, Option, List, [], ◌∷◌, ℤ, pos, ◌+ℤ◌, ◌<ℤ◌,
  ◌≤ℤ◌, ltb_ℤ, ltb_ℤ→lt, add64, +ℤ_parts, All, All-map, IsInt64, arith,
}
use gno_land_block_indexer.Model.{Block, BlockWithTransactions}
use gno_land_block_indexer.Ent.Error.{Result, ok, err}
use gno_land_block_indexer.Ent.Action.{Action, annotate, ◌>>=◌}
use gno_land_block_indexer.Ent.Post.{Post, Post-bind, Post-annotate}
use gno_land_block_indexer.Ent.Database.{Database}
use gno_land_block_indexer.BlockSynchronizer.Poll.{
  Graphql, HonoursBlocks, poll_blocks, poll_transactions,
}
use gno_land_block_indexer.BlockSynchronizer.Poll.Laws.{
  HasRoom, add64_of_HasRoom, InWindow, poll_blocks-InWindow,
}
use gno_land_block_indexer.BlockSynchronizer.History.{save_restoring_history}
use gno_land_block_indexer.BlockSynchronizer.Bus.{Bus, Delivers}
use gno_land_block_indexer.BlockSynchronizer.Restore.{
  World, Turn, stop, next, assemble, lift, on_db, publish_all, publish_window, restore_blocks,
  restore_window, after_window, while_below, restore_from,
}
use gno_land_block_indexer.BlockSynchronizer.Restore.Laws.{
  IsMatched, assemble-IsMatched, Sends, Sends-same, Sends-trans, publish_all-Sends,
}

module _ (D : Database) (B : Bus) (delivers : Delivers B) (G : Graphql)
    (marshal : BlockWithTransactions → Option String) where
  -- From the world `w` on, only matched blocks above `low` were sent.
  abbrev SendsFrom : ℤ → World D B G marshal → World D B G marshal → Type 0
  SendsFrom low = Sends D B delivers G marshal (IsMatched low)

  -- Both of how a call may end.
  abbrev Either :
      {A : Type 0} → (World D B G marshal → Type 0) → Result A × World D B G marshal → Type 0
  Either P out = Post out (λ _ w'. P w') P

  lift-Either :
      {A : Type 0} (P : World D B G marshal → Type 0) (r : Result A) (w : World D B G marshal)
      → P w
      → Either P (lift D B G marshal r w)
  lift-Either P (ok a) w h = h
  lift-Either P (err e) w h = h

  on_db-Either :
      {A : Type 0} (low : ℤ) (act : Action D.State A) (w w' : World D B G marshal)
      → SendsFrom low w w'
      → Either (SendsFrom low w) (on_db D B G marshal act w')
  on_db-Either low act w w' h = lift-Either (SendsFrom low w) (act w'.db).0 _ h

  restore_blocks-Either :
      (low i : ℤ) (bs : List Block) (w : World D B G marshal)
      → All (λ b. low <ℤ b.height) bs
      → Either (SendsFrom low w) (restore_blocks D B G marshal i bs w)
  restore_blocks-Either low i [] w h = Sends-same D B delivers G marshal (IsMatched low) w w refl
  restore_blocks-Either low i (b ∷ bs) w h =
      Post-bind (λ _ w'. SendsFrom low w w') _ _
        (annotate "failed to save restoring history"
          (on_db D B G marshal (save_restoring_history D i (add64 i (pos 100)))))
        (λ _.
          annotate "failed to poll transactions"
            (lift D B G marshal (poll_transactions G i (pos 100)))
          >>= publish_window D B G marshal (b ∷ bs))
        w
        (Post-annotate _ _ "failed to save restoring history"
          (on_db D B G marshal (save_restoring_history D i (add64 i (pos 100)))) w
          (on_db-Either low (save_restoring_history D i (add64 i (pos 100))) w w
            (Sends-same D B delivers G marshal (IsMatched low) w w refl)))
        (λ _ w' k.
          Post-bind (λ _ w''. SendsFrom low w w'') _ _
            (annotate "failed to poll transactions"
              (lift D B G marshal (poll_transactions G i (pos 100))))
            (publish_window D B G marshal (b ∷ bs)) w'
            (Post-annotate _ _ "failed to poll transactions"
              (lift D B G marshal (poll_transactions G i (pos 100))) w'
              (lift-Either (SendsFrom low w) (poll_transactions G i (pos 100)) w' k))
            (λ txs w'' j.
              Sends-trans D B delivers G marshal (IsMatched low) w w''
                (publish_all D B G marshal (assemble txs (b ∷ bs)) w'') j
                (publish_all-Sends D B delivers G marshal (IsMatched low) (assemble txs (b ∷ bs))
                  w'' (assemble-IsMatched low txs (b ∷ bs) h))))

  polled_window :
      (low i : ℤ) (r : Result (List Block)) (w : World D B G marshal)
      → ((bs : List Block) → r ≡ ok bs → All (λ b. low <ℤ b.height) bs)
      → Either (SendsFrom low w) (
          (annotate "failed to poll blocks" (lift D B G marshal r)
              >>= restore_blocks D B G marshal i)
            w)
  polled_window low i (err e) w h = Sends-same D B delivers G marshal (IsMatched low) w w refl
  polled_window low i (ok bs) w h = restore_blocks-Either low i bs w (h bs refl)

  above_low : (low i h : ℤ) → low ≤ℤ i → i <ℤ h → low <ℤ h
  above_low low i h a b = ground arith

  restore_window-Either :
      (low i : ℤ) (w : World D B G marshal)
      → HonoursBlocks G
      → HasRoom i 101
      → low ≤ℤ i
      → Either (SendsFrom low w) (restore_window D B G marshal i w)
  unfolding restore_window
  restore_window-Either low i w honours room below =
      polled_window low i (poll_blocks G i (pos 100)) w (λ bs e.
        All-map (λ b. InWindow i 100 b.height) (λ b. low <ℤ b.height) bs
          (λ b k. above_low low i b.height below k.0)
          (poll_blocks-InWindow G i 100 bs honours room e))

  after_window-Sends :
      (P : World D B G marshal → Type 0)
      (rest : World D B G marshal → Option (Result (Unit {0})) × World D B G marshal)
      (out : Result Turn × World D B G marshal)
      → Either P out
      → ((w : World D B G marshal) → P w → P (rest w).1)
      → P (after_window D B G marshal rest out).1
  after_window-Sends P rest (ok next, w) h k = k w h
  after_window-Sends P rest (ok stop, w) h k = h
  after_window-Sends P rest (err e, w) h k = h

  pub next_offset :
      (low i top : ℤ)
      → HasRoom top 101
      → IsInt64 i
      → i <ℤ top
      → low ≤ℤ i
      → (HasRoom i 101) × ((IsInt64 (add64 i (pos 100))) × (low ≤ℤ add64 i (pos 100)))
  next_offset low i top room ii below lows =
      let here : HasRoom i 101 = ground arith in
      let step : add64 i (pos 100) ≡ i +ℤ pos 100 = add64_of_HasRoom i 100 (ground arith) in
      rw step (here, (ground (arith, +ℤ_parts i (pos 100)), ground (arith, +ℤ_parts i (pos 100))))

  while_below-Sends :
      (low i : ℤ) (below : Bool)
      (rest : World D B G marshal → Option (Result (Unit {0})) × World D B G marshal)
      (w : World D B G marshal)
      → HonoursBlocks G
      → low ≤ℤ i
      → (below ≡ true → HasRoom i 101)
      → (below ≡ true → (w' : World D B G marshal) → SendsFrom low w' (rest w').1)
      → SendsFrom low w (while_below D B G marshal below rest i w).1
  while_below-Sends low i false rest w honours lows room h =
      Sends-same D B delivers G marshal (IsMatched low) w w refl
  while_below-Sends low i true rest w honours lows room h =
      after_window-Sends (SendsFrom low w) rest (restore_window D B G marshal i w)
        (restore_window-Either low i w honours (room refl) lows)
        (λ w' k. Sends-trans D B delivers G marshal (IsMatched low) w w' (rest w').1 k (h refl w'))

  -- If the server keeps to the bounds of a query, the broker sends what it accepts, and the upper end
  -- leaves room for a window in 64 bits: however a restore ends, and however many rounds it makes: each message that it sends is the text
  -- of a block above the height where it starts, with transactions of that block's height only.
  pub restore_from-Sends :
      (fuel : ℕ) (low i top : ℤ) (w : World D B G marshal)
      → HonoursBlocks G
      → HasRoom top 101
      → IsInt64 i
      → low ≤ℤ i
      → SendsFrom low w (restore_from D B G marshal fuel i top w).1
  unfolding restore_from
  restore_from-Sends zero low i top w honours room ii lows =
      Sends-same D B delivers G marshal (IsMatched low) w w refl
  restore_from-Sends (suc fuel) low i top w honours room ii lows =
      let rest = restore_from D B G marshal fuel (add64 i (pos 100)) top in
      while_below-Sends low i (ltb_ℤ i top) rest w honours lows
        (λ below. (next_offset low i top room ii (ltb_ℤ→lt i top below) lows).0)
        (λ below w'.
          let k = next_offset low i top room ii (ltb_ℤ→lt i top below) lows in
          restore_from-Sends fuel low (add64 i (pos 100)) top w' honours room k.1.0 k.1.1)
