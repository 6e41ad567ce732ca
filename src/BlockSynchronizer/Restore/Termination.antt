-- ===== src/BlockSynchronizer/Restore/Termination.antt =====
-- The rounds of the restore's loop, counted by its fuel.
use gno_land_block_indexer.Prelude.{
  ℕ, zero, suc, ◌+◌, ◌*◌, ◌≤◌, ◌≡◌, ◌≢◌, refl, Bool, true, false, String, Option, none, ℤ, pos,
  pos_part, neg_part, ltb_ℤ, ltb_ℤ→lt, add64, ◌+ℤ◌, ◌<ℤ◌, +ℤ_parts, IsInt64, arith,
}
use gno_land_block_indexer.Model.{BlockWithTransactions}
use gno_land_block_indexer.Ent.Error.{Result, ok, err}
use gno_land_block_indexer.Ent.Database.{Database}
use gno_land_block_indexer.BlockSynchronizer.Poll.{Graphql}
use gno_land_block_indexer.BlockSynchronizer.Poll.Laws.{HasRoom, add64_of_HasRoom}
use gno_land_block_indexer.BlockSynchronizer.Bus.{Bus}
use gno_land_block_indexer.BlockSynchronizer.Restore.{
  World, Turn, stop, next, restore_window, after_window, while_below, restore_from,
}

-- The rounds that are left from `i` up to `top` are at most `n`.
abbrev pub Within : ℤ → ℤ → ℕ → Type 0
Within i top n = pos_part top + neg_part i ≤ pos_part i + neg_part top + 100 * n

module _ (D : Database) (B : Bus) (G : Graphql)
    (marshal : BlockWithTransactions → Option String) where
  abbrev Rest : Type 0
  Rest = World D B G marshal → Option (Result (Unit {0})) × World D B G marshal

  after_window-ends :
      (rest : Rest) (out : Result Turn × World D B G marshal)
      → ((w : World D B G marshal) → (rest w).0 ≢ none)
      → (after_window D B G marshal rest out).0 ≢ none
  after_window-ends rest (ok next, w) h = h w
  after_window-ends rest (ok stop, w) h = cc
  after_window-ends rest (err e, w) h = cc

  while_below-ends :
      (below : Bool) (rest : Rest) (i : ℤ) (w : World D B G marshal)
      → (below ≡ true → (w' : World D B G marshal) → (rest w').0 ≢ none)
      → (while_below D B G marshal below rest i w).0 ≢ none
  while_below-ends false rest i w h = cc
  while_below-ends true rest i w h =
      after_window-ends rest (restore_window D B G marshal i w) (h refl)

  pub step_Within :
      (i top : ℤ) (n : ℕ)
      → HasRoom top 101
      → IsInt64 i
      → ltb_ℤ i top ≡ true
      → Within i top (suc n)
      → IsInt64 (add64 i (pos 100)) × Within (add64 i (pos 100)) top n
  step_Within i top n room ii below h =
      let lt = ltb_ℤ→lt i top below in
      let step : add64 i (pos 100) ≡ i +ℤ pos 100 = add64_of_HasRoom i 100 (ground arith) in
      rw step (ground (arith, +ℤ_parts i (pos 100)), omega (arith, +ℤ_parts i (pos 100)))

  pub at_end : (i top : ℤ) → i <ℤ top → Within i top 0 → ⊥
  at_end i top below h = omega arith

  -- The loop ends within one round for each hundred heights between its offset and its bound, and
  -- one more, if the bound is a hundred below the largest 64-bit number.
  pub restore_from-ends :
      (n : ℕ) (i top : ℤ) (w : World D B G marshal)
      → HasRoom top 101
      → IsInt64 i
      → Within i top n
      → (restore_from D B G marshal (suc n) i top w).0 ≢ none
  unfolding restore_from
  restore_from-ends zero i top w room ii h =
      while_below-ends (ltb_ℤ i top) _ i w (λ below. absurd (at_end i top (ltb_ℤ→lt i top below) h))
  restore_from-ends (suc n) i top w room ii h = while_below-ends (ltb_ℤ i top) _ i w (λ below w'.
      let k = step_Within i top n room ii below h in
      restore_from-ends n (add64 i (pos 100)) top w' room k.0 k.1)
