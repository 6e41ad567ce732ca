-- ===== src/BlockSynchronizer/Restore/Completeness.antt =====
-- The loop of the restore, against a server that answers each query and a bus that accepts each message.
use gno_land_block_indexer.Prelude.{
  ℕ, zero, suc, ◌≡◌, refl, Bool, true, false, ◌&&◌, String, Option, some, List, map, keep, ℤ, pos,
  ltb_ℤ, ltb_ℤ→lt, eq_ℤ, add64, ◌+ℤ◌, ◌<ℤ◌, ◌≤ℤ◌, +ℤ_parts, IsInt64, arith, Bool-cases, inl, inr,
  Among, Among-keep, All, All-keep, not,
}
use gno_land_block_indexer.Model.{BlockWithTransactions}
use gno_land_block_indexer.Ent.Error.{Result, ok, err}
use gno_land_block_indexer.Ent.Post.{Returns}
use gno_land_block_indexer.Ent.Database.{Database, IsReliable, IsLawful}
use gno_land_block_indexer.BlockSynchronizer.Poll.{
  Graphql, RawBlock, RawTransaction, transaction_of, upper_bound,
}
use gno_land_block_indexer.BlockSynchronizer.Poll.Laws.{HasRoom, add64_of_HasRoom, upper_bound-eq}
use gno_land_block_indexer.BlockSynchronizer.Bus.{Bus, Delivers}
use gno_land_block_indexer.BlockSynchronizer.Restore.{
  Turn, stop, next, restore_window, after_window, while_below, restore_from,
}
use gno_land_block_indexer.BlockSynchronizer.Restore.Delivery.{Accepts, Worlds, marshal, Grows}
use gno_land_block_indexer.BlockSynchronizer.Restore.Termination.{Within, step_Within, at_end}
use gno_land_block_indexer.BlockSynchronizer.Restore.Round.{
  between, holds_tx, Serves, keep_twice, SentWith, BlockSent, Sends, window_out, window_rows,
  polled_txs,
}

module _ (D : Database) (L : IsLawful D) (R : IsReliable D) (B : Bus) (delivers : Delivers B)
    (accepts : Accepts B) (G : Graphql) (encode : BlockWithTransactions → String)
    (chain : List RawBlock) (txs : List RawTransaction) (serves : Serves G chain txs) where
  abbrev W : Type 0
  W = Worlds D B delivers accepts G encode

  abbrev text : BlockWithTransactions → Option String
  text = marshal D B delivers accepts G encode

  -- The server has a block at each height behind `i` and up to `top`.
  abbrev pub Contiguous : ℤ → ℤ → Type 0
  Contiguous i top = (h : ℤ) → i <ℤ h → h ≤ℤ top → (q : RawBlock) × Among q chain × (q.height ≡ h)

  abbrev Restored : ℤ → ℤ → W → Option (Result (Unit {0})) × W → Type 0
  Restored i top w out =
      (out.0 ≡ some (ok tt))
      × Grows D B delivers accepts G encode w out.1
      × ((r : RawBlock)
          → Among r chain
          → i <ℤ r.height
          → r.height ≤ℤ top
          → BlockSent D L R B delivers accepts G encode chain txs serves r out.1)

  in_window :
      (i : ℤ) (r : RawBlock)
      → HasRoom i 101
      → Among r chain
      → i <ℤ r.height
      → r.height ≤ℤ i +ℤ pos 100
      → Among r (window_rows D L R B delivers accepts G encode chain txs serves i)
  in_window i r room among above below =
      Among-keep (between i (upper_bound i (pos 100))) r chain
        (rw (upper_bound-eq i 100 room)
          (ground (arith, +ℤ_parts i (pos 100), +ℤ_parts i (pos 101))))
        among

  same_transactions :
      (i : ℤ) (r : RawBlock)
      → HasRoom i 101
      → i <ℤ r.height
      → r.height ≤ℤ i +ℤ pos 100
      → keep
          (λ tx. eq_ℤ tx.block_height r.height)
          (polled_txs D L R B delivers accepts G encode chain txs serves i)
        ≡ keep (λ tx. eq_ℤ tx.block_height r.height) (map transaction_of txs)
  unfolding transaction_of
  same_transactions i r room above below =
      keep_twice transaction_of (λ tx. eq_ℤ tx.block_height r.height)
        (holds_tx i (upper_bound i (pos 100))) txs
        (λ t same.
          rw (upper_bound-eq i 100 room)
            (ground (arith, +ℤ_parts i (pos 100), +ℤ_parts i (pos 101))))

  after_window-Restored :
      (i top : ℤ) (w : W) (rest : W → Option (Result (Unit {0})) × W) (out : Result Turn × W)
      → HasRoom i 101
      → Returns out (
          Sends D L R B delivers accepts G encode chain txs serves
            (polled_txs D L R B delivers accepts G encode chain txs serves i)
            (window_rows D L R B delivers accepts G encode chain txs serves i)
            w)
      → ((w' : W) → Restored (add64 i (pos 100)) top w' (rest w'))
      → Restored i top w (after_window D B G text rest out)
  unfolding Sends
  after_window-Restored i top w rest (ok next, w') room sends h = (
    (h w').0,
    λ m k. (h w').1 m (sends.1 m k),
    λ r among above below. elim (Bool-cases (ltb_ℤ (i +ℤ pos 100) r.height)) [
      | inl past ↦
          (h w').2 r among
            (rw (add64_of_HasRoom i 100 (ground arith)) (ltb_ℤ→lt (i +ℤ pos 100) r.height past))
            below
      | inr not_past ↦
          let sent = sends.2 r (in_window i r room among above (ground arith)) in
          let sent' : SentWith D L R B delivers accepts G encode chain txs serves
              (map transaction_of txs) r w' =
            rw (same_transactions i r room above (ground arith)) at sent in
          (h w').1 _ sent'
    ],
  )
  after_window-Restored i top w rest (ok stop, w') room sends h = cc
  after_window-Restored i top w rest (err e, w') room sends h = absurd sends

  past_end : (i top : ℤ) (w : W) → ltb_ℤ i top ≡ false → Restored i top w (some (ok tt), w)
  past_end i top w h = (refl, λ m k. k, λ r among above below. absurd (ground arith))

  window_starts :
      (i top : ℤ)
      → HasRoom i 101
      → i <ℤ top
      → Contiguous i top
      → (q : RawBlock) × Among q (window_rows D L R B delivers accepts G encode chain txs serves i)
  window_starts i top room below full =
      let first =
        full (i +ℤ pos 1) (ground (arith, +ℤ_parts i (pos 1)))
          (ground (arith, +ℤ_parts i (pos 1))) in
      let at_first : first.0.height ≡ i +ℤ pos 1 = first.2 in
      (
        first.0,
        in_window i first.0 room first.1 (rw at_first (ground (arith, +ℤ_parts i (pos 1))))
            (rw at_first (ground (arith, +ℤ_parts i (pos 1), +ℤ_parts i (pos 100)))),
      )

  while_below-Restored :
      (below : Bool) (i top : ℤ) (w : W) (rest : W → Option (Result (Unit {0})) × W)
      → ltb_ℤ i top ≡ below
      → (below ≡ true → HasRoom i 101)
      → Contiguous i top
      → (below ≡ true → (w' : W) → Restored (add64 i (pos 100)) top w' (rest w'))
      → Restored i top w (while_below D B G text below rest i w)
  while_below-Restored false i top w rest e room full h = past_end i top w e
  while_below-Restored true i top w rest e room full h =
      let q = window_starts i top (room refl) (ltb_ℤ→lt i top e) full in
      after_window-Restored i top w rest (restore_window D B G text i w) (room refl)
        (window_out D L R B delivers accepts G encode chain txs serves i w q.0 q.1) (h refl)

  shorter : (i top : ℤ) → HasRoom i 101 → Contiguous i top → Contiguous (add64 i (pos 100)) top
  shorter i top room full h above =
      let step : add64 i (pos 100) ≡ i +ℤ pos 100 = add64_of_HasRoom i 100 (ground arith) in
      let above' : i +ℤ pos 100 <ℤ h = rw step at above in
      full h (ground (arith, +ℤ_parts i (pos 100)))

  room_below : (i top : ℤ) → HasRoom top 101 → IsInt64 i → ltb_ℤ i top ≡ true → HasRoom i 101
  room_below i top room ii e = let lt = ltb_ℤ→lt i top e in ground arith

  restore_from-Restored :
      (n : ℕ) (i top : ℤ) (w : W)
      → HasRoom top 101
      → IsInt64 i
      → Within i top n
      → Contiguous i top
      → Restored i top w (restore_from D B G text (suc n) i top w)
  unfolding restore_from
  restore_from-Restored zero i top w room ii h full =
      while_below-Restored (ltb_ℤ i top) i top w _ refl (room_below i top room ii) full
        (λ e. absurd (at_end D B G text i top (ltb_ℤ→lt i top e) h))
  restore_from-Restored (suc n) i top w room ii h full =
      while_below-Restored (ltb_ℤ i top) i top w _ refl (room_below i top room ii) full (λ e w'.
        let k = step_Within D B G text i top n room ii e h in
        restore_from-Restored n (add64 i (pos 100)) top w' room k.0 k.1
          (shorter i top (room_below i top room ii e) full))

  -- The height is behind `i` and not above `top`.
  abbrev pub in_range : ℤ → ℤ → RawBlock → Bool
  in_range i top r = ltb_ℤ i r.height && not (ltb_ℤ top r.height)

  -- On a lawful database that does not fail, with a JSON encoder that never fails, a broker that accepts
  -- and sends every message, and a server that answers each query exactly and has a block at each
  -- height of the range, if the upper end leaves room for a window in 64 bits, the restore's loop ends without an error, within one
  -- round for each hundred heights and one more, and each block of the range was sent with all its
  -- transactions.
  pub restore_from-BlockSent :
      (n : ℕ) (i top : ℤ) (w : W)
      → HasRoom top 101
      → IsInt64 i
      → Within i top n
      → Contiguous i top
      → let out = restore_from D B G text (suc n) i top w in
        (out.0 ≡ some (ok tt))
        × All
            (λ r. BlockSent D L R B delivers accepts G encode chain txs serves r out.1)
            (keep (in_range i top) chain)
  restore_from-BlockSent n i top w room ii h full =
      let k = restore_from-Restored n i top w room ii h full in
      (
        k.0,
        All-keep (in_range i top) _ chain
            (λ r among within. k.2 r among (ltb_ℤ→lt i r.height (ground arith)) (ground arith)),
      )
