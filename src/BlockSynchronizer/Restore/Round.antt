-- ===== src/BlockSynchronizer/Restore/Round.antt =====
-- One round of the restore, against a server that answers each query.
use gno_land_block_indexer.Prelude.{
  ◌≡◌, ◌≢◌, refl, ap, Bool, true, ◌&&◌, String, Option, some, List, [], ◌∷◌, map, keep, ℤ, pos,
  ltb_ℤ, eq_ℤ, add64, Bool-cases, inl, inr, Among,
}
use gno_land_block_indexer.Model.{Block, Transaction, BlockWithTransactions}
use gno_land_block_indexer.Ent.Error.{Result, ok, err}
use gno_land_block_indexer.Ent.Action.{Action, annotate, ◌>>=◌}
use gno_land_block_indexer.Ent.Post.{Returns, Post-bind, Post-annotate}
use gno_land_block_indexer.Ent.Client.{reply_result}
use gno_land_block_indexer.Ent.Database.{
  Database, IsReliable, IsLawful, Reply, accepted, refused, failed, Write, done, broken, lost,
}
use gno_land_block_indexer.BlockSynchronizer.Poll.{
  Graphql, RawBlock, RawTransaction, block_of, transaction_of, upper_bound, poll_blocks,
  poll_transactions,
}
use gno_land_block_indexer.BlockSynchronizer.History.{save_restoring_history, history_saved}
use gno_land_block_indexer.BlockSynchronizer.Bus.{Bus, Delivers}
use gno_land_block_indexer.BlockSynchronizer.Restore.{
  Turn, next, assemble, lift, on_db, publish_all, publish_window, restore_blocks, restore_window,
}
use gno_land_block_indexer.BlockSynchronizer.Restore.Delivery.{
  Accepts, Worlds, marshal, IsSent, Grows, publish_all-IsSent,
}

-- The query's condition on a block.
abbrev pub between : ℤ → ℤ → RawBlock → Bool
between gt lt r = ltb_ℤ gt r.height && ltb_ℤ r.height lt

abbrev pub holds_tx : ℤ → ℤ → RawTransaction → Bool
holds_tx gt lt t = ltb_ℤ gt t.block_height && ltb_ℤ t.block_height lt

-- The server answers each query, with what it has of `chain` and `txs` within the bounds.
pub record Serves (G : Graphql) (chain : List RawBlock) (txs : List RawTransaction) : Type 0 where
  pub blocks_answer : (gt lt : ℤ) → G.run_blocks gt lt ≡ some (keep (between gt lt) chain)
  pub transactions_answer :
      (gt lt : ℤ) → G.run_transactions gt lt ≡ some (keep (holds_tx gt lt) txs)

-- The first filter drops nothing that the second would keep.
pub keep_twice :
    {A B : Type 0} (f : A → B) (p : B → Bool) (q : A → Bool) (xs : List A)
    → ((x : A) → p (f x) ≡ true → q x ≡ true)
    → keep p (map f (keep q xs)) ≡ keep p (map f xs)
keep_twice f p q [] h = refl
keep_twice f p q (x ∷ xs) h =
    let rest = keep_twice f p q xs h in
    elim (Bool-cases (q x)) [
      | inl y ↦ rw y (elim (Bool-cases (p (f x))) [
        | inl z ↦ rw z (ap (λ ys. f x ∷ ys) rest)
        | inr z ↦ rw z rest
      ])
      | inr n ↦ elim (Bool-cases (p (f x))) [
        | inl z ↦ let yes = h x z in cc
        | inr z ↦ rw n (rw z rest)
      ]
    ]

module _ (D : Database) (L : IsLawful D) (R : IsReliable D) (B : Bus) (delivers : Delivers B)
    (accepts : Accepts B) (G : Graphql) (encode : BlockWithTransactions → String)
    (chain : List RawBlock) (txs : List RawTransaction) (serves : Serves G chain txs) where
  abbrev pub W : Type 0
  W = Worlds D B delivers accepts G encode

  abbrev pub text : BlockWithTransactions → Option String
  text = marshal D B delivers accepts G encode

  -- The block was sent, with those of the transactions that have its height.
  abbrev pub SentWith : List Transaction → RawBlock → W → Type 0
  SentWith ts r w =
      IsSent D B delivers accepts G encode
        (record {
          block = some (block_of G r);
          transactions = keep (λ tx. eq_ℤ tx.block_height r.height) ts;
        })
        w

  -- The block was sent with all its transactions.
  abbrev pub BlockSent : RawBlock → W → Type 0
  BlockSent = SentWith (map transaction_of txs)

  assemble-Among :
      (ts : List Transaction) (r : RawBlock) (rows : List RawBlock)
      → Among r rows
      → Among
          (record {
            block = some (block_of G r);
            transactions = keep (λ tx. eq_ℤ tx.block_height r.height) ts;
          })
          (assemble ts (map (block_of G) rows))
  unfolding assemble block_of
  assemble-Among ts r [] h = absurd h
  assemble-Among ts r (q ∷ rows) (inl here) = inl (rw here refl)
  assemble-Among ts r (q ∷ rows) (inr there) = inr (assemble-Among ts r rows there)

  saved_out :
      (t : _) (s : D.State) (out : Reply × D.State)
      → out.0 ≢ failed
      → Write D true t s out
      → Returns (history_saved D (reply_result out.0, out.1)) (λ _ _. Unit)
  saved_out t s (accepted, s') ne h = tt
  saved_out t s (refused, s') ne (done f a e) = cc
  saved_out t s (refused, s') ne (broken f a e) = cc
  saved_out t s (refused, s') ne (lost a e) = cc
  saved_out t s (failed, s') ne h = absurd (ne refl)

  history_out : (i j : ℤ) (s : D.State) → Returns (save_restoring_history D i j s) (λ _ _. Unit)
  unfolding save_restoring_history
  history_out i j s = saved_out _ s _ (R.upsert_history_ne _ s) (L.upsert_history-Write _ s)

  -- A call of the database leaves what was sent alone.
  on_db_out :
      (w : W) (out : Result (Unit {0}) × D.State)
      → Returns out (λ _ _. Unit)
      → Returns {A = Unit {0}} (out.0, record w { db = out.1 }) (λ _ w'. w'.bus ≡ w.bus)
  on_db_out w (ok a, s) h = refl
  on_db_out w (err e, s) h = h

  abbrev pub window_rows : ℤ → List RawBlock
  window_rows i = keep (between i (upper_bound i (pos 100))) chain

  polled_rows : (i : ℤ) → poll_blocks G i (pos 100) ≡ ok (map (block_of G) (window_rows i))
  unfolding poll_blocks
  polled_rows i = rw (serves.blocks_answer i (upper_bound i (pos 100))) refl

  abbrev pub polled_txs : ℤ → List Transaction
  polled_txs i = map transaction_of (keep (holds_tx i (upper_bound i (pos 100))) txs)

  polled_transactions : (i : ℤ) → poll_transactions G i (pos 100) ≡ ok (polled_txs i)
  unfolding poll_transactions
  polled_transactions i = rw (serves.transactions_answer i (upper_bound i (pos 100))) refl

  unfoldable pub Sends : List Transaction → List RawBlock → W → Turn → W → Type 0
  Sends ts rows w turn w' =
      (turn ≡ next)
      × Grows D B delivers accepts G encode w w'
      × ((r : RawBlock) → Among r rows → SentWith ts r w')

  published :
      (ts : List Transaction) (rows : List RawBlock) (w w' : W)
      → w'.bus ≡ w.bus
      → Sends ts rows w next (publish_all D B G text (assemble ts (map (block_of G) rows)) w')
  unfolding Sends
  published ts rows w w' same =
      let k =
        publish_all-IsSent D B delivers accepts G encode (assemble ts (map (block_of G) rows)) w' in
      (refl, λ m h. k.0 m (rw same h), λ r h. k.1 _ (assemble-Among ts r rows h))

  abbrev after_history : ℤ → List Block → Action W Turn
  after_history i blocks =
      annotate "failed to poll transactions" (lift D B G text (poll_transactions G i (pos 100)))
      >>= publish_window D B G text blocks

  after_history_out :
      (i : ℤ) (rows : List RawBlock) (w w' : W)
      → w'.bus ≡ w.bus
      → Returns (after_history i (map (block_of G) rows) w') (Sends (polled_txs i) rows w)
  after_history_out i rows w w' same =
      rw (polled_transactions i) (published (polled_txs i) rows w w' same)

  restore_rows :
      (i : ℤ) (rows : List RawBlock) (w : W) (q : RawBlock)
      → Among q rows
      → Returns
          (restore_blocks D B G text i (map (block_of G) rows) w)
          (Sends (polled_txs i) rows w)
  restore_rows i [] w q h = absurd h
  restore_rows i (r ∷ rows) w q h =
      let save = on_db D B G text (save_restoring_history D i (add64 i (pos 100))) in
      Post-bind (λ _ w'. w'.bus ≡ w.bus) (Sends (polled_txs i) (r ∷ rows) w) (λ _. ⊥)
        (annotate "failed to save restoring history" save)
        (λ _. after_history i (map (block_of G) (r ∷ rows))) w
        (Post-annotate (λ _ w'. w'.bus ≡ w.bus) (λ _. ⊥) "failed to save restoring history" save w
          (on_db_out w (save_restoring_history D i (add64 i (pos 100)) w.db)
            (history_out i (add64 i (pos 100)) w.db)))
        (λ _ w' same. after_history_out i (r ∷ rows) w w' same)

  pub window_out :
      (i : ℤ) (w : W) (q : RawBlock)
      → Among q (window_rows i)
      → Returns (restore_window D B G text i w) (Sends (polled_txs i) (window_rows i) w)
  unfolding restore_window
  window_out i w q h = rw (polled_rows i) (restore_rows i (window_rows i) w q h)
