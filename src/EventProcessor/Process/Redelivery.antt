-- ===== src/EventProcessor/Process/Redelivery.antt =====
-- A block that is delivered again, at once or after any other deliveries, as the broker does after an error.
use gno_land_block_indexer.Prelude.{
  ◌≡◌, ◌⊎◌, inl, inr, Bool, true, false, none, some, Option, List, [], ◌∷◌, ◌++◌, ℤ, eq_ℤ_iff,
  arith,
}
use gno_land_block_indexer.Model.{Time, Block, Transaction, BlockWithTransactions}
use gno_land_block_indexer.Ent.Error.{Result, ok, err}
use gno_land_block_indexer.Ent.Action.{annotate}
use gno_land_block_indexer.Ent.Post.{Post, Post-bind, Post-annotate, Post-weaken}
use gno_land_block_indexer.Ent.Tables.{Tables, BlockRow, has_block}
use gno_land_block_indexer.Ent.Database.{Database, IsLawful}
use gno_land_block_indexer.Repository.Blocks.{add_block, block_row}
use gno_land_block_indexer.Repository.Blocks.Laws.{Added, add_block-Added}
use gno_land_block_indexer.Repository.Transactions.{add_transactions}
use gno_land_block_indexer.Repository.Transactions.Laws.{add_transactions-AllOrNone}
use gno_land_block_indexer.EventProcessor.Handlers.Stability.{
  IsClosed, Keeps, bind-Keeps, annotate-Keeps,
}
use gno_land_block_indexer.EventProcessor.Process.{
  parse_and_process_transactions, process_new, process_block_with_transactions,
}
use gno_land_block_indexer.EventProcessor.Process.Stability.{parse_and_process_transactions-Keeps}

-- The block of the height is stored.
abbrev pub HasBlock : ℤ → Tables → Type 0
HasBlock h t = has_block h t.blocks ≡ true

pub HasBlock-IsClosed : (h : ℤ) → IsClosed (HasBlock h)
HasBlock-IsClosed h = record {
  add_account = λ t r new k. k;
  credit_account = λ t a token x k. k;
  add_transfers = λ t rs fits k. k;
}

pub has_block-append_self :
    (r : BlockRow) (rs : List BlockRow) → has_block r.height (rs ++ r ∷ []) ≡ true
has_block-append_self r [] = ground (arith, eq_ℤ_iff r.height r.height)
has_block-append_self r (q ∷ rs) = ground (arith, has_block-append_self r rs)

pub has_block-append :
    (h : ℤ) (r : BlockRow) (rs : List BlockRow)
    → has_block h rs ≡ true
    → has_block h (rs ++ r ∷ []) ≡ true
has_block-append h r [] k = cc
has_block-append h r (q ∷ rs) k = ground (arith, has_block-append h r rs)

module _ (D : Database) (L : IsLawful D) where
  open D use {State, tables}

  Added-stored :
      (r : BlockRow) (exists : Bool) (t : Tables) (s : State)
      → Added D L t r exists s
      → HasBlock r.height (tables s)
  Added-stored r true t s (stored, same) = rw same stored
  Added-stored r false t s (new, added) = rw added (has_block-append_self r t.blocks)

  pub add_transactions-stored :
      (now : Time) (h height : ℤ) (txs : List Transaction)
      → Keeps D L (HasBlock h) (HasBlock-IsClosed h) (add_transactions D now height txs)
  add_transactions-stored now h height txs s k =
      Post-weaken _ _ _ _ (add_transactions D now height txs s)
        (add_transactions-AllOrNone D L now height txs s)
        (λ _ s' j. elim j [ inl (fits, added) ↦ rw added k | inr same ↦ rw same k ])
        (λ s' j. rw j k)

  process_new-stored :
      (h : ℤ) (now : Time) (b : Block) (txs : List Transaction) (exists : Bool)
      → Keeps D L (HasBlock h) (HasBlock-IsClosed h) (process_new D now b txs exists)
  process_new-stored h now b txs true s k = k
  process_new-stored h now b txs false s k =
      let P = HasBlock h in
      let C = HasBlock-IsClosed h in
      bind-Keeps D L P C
        (annotate "failed to add transactions" (add_transactions D now b.height txs))
        (λ _.
          annotate "failed to parse and process transactions"
            (parse_and_process_transactions D now txs))
        (annotate-Keeps D L P C "failed to add transactions" (add_transactions D now b.height txs)
          (add_transactions-stored now h b.height txs))
        (λ _.
          annotate-Keeps D L P C "failed to parse and process transactions"
            (parse_and_process_transactions D now txs)
            (parse_and_process_transactions-Keeps D L P C now txs))
        s k

  Added-kept :
      (h : ℤ) (r : BlockRow) (exists : Bool) (t : Tables) (s : State)
      → HasBlock h t
      → Added D L t r exists s
      → HasBlock h (tables s)
  Added-kept h r true t s k (stored, same) = rw same k
  Added-kept h r false t s k (new, added) = rw added (has_block-append h r t.blocks k)

  add_block-stored :
      (h : ℤ) (now : Time) (b : Block)
      → Keeps D L (HasBlock h) (HasBlock-IsClosed h) (add_block D now b)
  add_block-stored h now b s k =
      Post-weaken _ _ _ _ (add_block D now b s) (add_block-Added D L now b s)
        (λ exists s' j. Added-kept h (block_row now b) exists (tables s) s' k j)
        (λ s' same. rw same k)

  -- Whatever is delivered, a block that is stored stays stored.
  process_block-kept :
      (h : ℤ) (now : Time) (o : Option Block) (txs : List Transaction)
      → Keeps D L
          (HasBlock h)
          (HasBlock-IsClosed h)
          (process_block_with_transactions D now (record { block = o; transactions = txs }))
  unfolding process_block_with_transactions
  process_block-kept h now none txs s k = k
  process_block-kept h now (some b) txs s k =
      bind-Keeps D L (HasBlock h) (HasBlock-IsClosed h)
        (annotate "failed to add block" (add_block D now b)) (process_new D now b txs)
        (annotate-Keeps D L (HasBlock h) (HasBlock-IsClosed h) "failed to add block"
          (add_block D now b) (add_block-stored h now b))
        (process_new-stored h now b txs) s k

  -- Messages that are processed one after the other, each at its time; an error is only logged.
  abbrev pub deliver_all : List (Time × BlockWithTransactions) → State → State
  deliver_all [] s = s
  deliver_all ((now, m) ∷ ds) s = deliver_all ds (process_block_with_transactions D now m s).1

  kept :
      {A : Type 0} (P : Tables → Type 0) (out : Result A × State)
      → Post out (λ _ s'. P (tables s')) (λ s'. P (tables s'))
      → P (tables out.1)
  kept P (ok a, s) h = h
  kept P (err e, s) h = h

  deliver_all-kept :
      (h : ℤ) (ds : List (Time × BlockWithTransactions)) (s : State)
      → HasBlock h (tables s)
      → HasBlock h (tables (deliver_all ds s))
  deliver_all-kept h [] s k = k
  deliver_all-kept h ((now, m) ∷ ds) s k =
      deliver_all-kept h ds (process_block_with_transactions D now m s).1 (
        kept (HasBlock h) (process_block_with_transactions D now m s)
          (process_block-kept h now m.block m.transactions s k))

  -- After a delivery the block is stored, or the delivery failed and nothing changed.
  abbrev StoredOrSame : ℤ → State → State → Type 0
  StoredOrSame h s s' = HasBlock h (tables s') ⊎ (tables s' ≡ tables s)

  process_block-StoredOrSame :
      (now : Time) (b : Block) (txs : List Transaction) (s : State)
      → Post
          (process_block_with_transactions D now (record { block = some b; transactions = txs }) s)
          (λ _ s'. StoredOrSame b.height s s')
          (λ s'. StoredOrSame b.height s s')
  unfolding process_block_with_transactions
  process_block-StoredOrSame now b txs s =
      Post-bind (λ _ s'. HasBlock b.height (tables s')) _ _
        (annotate "failed to add block" (add_block D now b)) (process_new D now b txs) s
        (Post-weaken _ _ _ _ (annotate "failed to add block" (add_block D now b) s)
          (Post-annotate _ _ "failed to add block" (add_block D now b) s
            (add_block-Added D L now b s))
          (λ exists s' h. Added-stored (block_row now b) exists (tables s) s' h) (λ s' h. inr h))
        (λ exists s' k.
          Post-weaken _ _ _ _ (process_new D now b txs exists s')
            (process_new-stored b.height now b txs exists s' k) (λ _ s'' j. inl j) (λ s'' j. inl j))

  -- The delivery of a stored block changes nothing.
  abbrev pub Unchanged : {A : Type 0} → State → Result A × State → Type 0
  Unchanged s out = Post out (λ _ s'. tables s' ≡ tables s) (λ s'. tables s' ≡ tables s)

  skipped :
      (now : Time) (b : Block) (txs : List Transaction) (exists : Bool) (t : Tables) (s : State)
      → has_block b.height t.blocks ≡ true
      → Added D L t (block_row now b) exists s
      → Post (process_new D now b txs exists s) (λ _ s'. tables s' ≡ t) (λ s'. tables s' ≡ t)
  skipped now b txs true t s k (stored, same) = same
  skipped now b txs false t s k (new, added) = cc

  process_block-stored :
      (now : Time) (b : Block) (txs : List Transaction) (s : State)
      → HasBlock b.height (tables s)
      → Unchanged s
          (process_block_with_transactions D now (record { block = some b; transactions = txs }) s)
  unfolding process_block_with_transactions
  process_block-stored now b txs s k =
      Post-bind (λ exists s'. Added D L (tables s) (block_row now b) exists s') _ _
        (annotate "failed to add block" (add_block D now b)) (process_new D now b txs) s
        (Post-weaken _ _ _ _ (annotate "failed to add block" (add_block D now b) s)
          (Post-annotate _ _ "failed to add block" (add_block D now b) s
            (add_block-Added D L now b s))
          (λ exists s' h. h) (λ s' h. h))
        (λ exists s' h. skipped now b txs exists (tables s) s' k h)

  either :
      (h : ℤ) (s s' : State) (r : Result (Unit {0}))
      → Post (r, s') (λ _ t. StoredOrSame h s t) (λ t. StoredOrSame h s t)
      → StoredOrSame h s s'
  either h s s' (ok _) k = k
  either h s s' (err e) k = k

  -- On a lawful database, if a delivery of a block has changed anything, even if it failed half-way,
  -- then after any number of other deliveries, one after another and of any messages, a delivery of a block of that height
  -- changes nothing.
  pub process_block_again :
      (now later : Time) (b c : Block) (txs more : List Transaction)
      (between : List (Time × BlockWithTransactions)) (s s' : State) (r : Result (Unit {0}))
      → c.height ≡ b.height
      → process_block_with_transactions D now (record { block = some b; transactions = txs }) s
        ≡ (r, s')
      → (tables s' ≡ tables s)
        ⊎ Unchanged (deliver_all between s') (
            process_block_with_transactions D later
              (record { block = some c; transactions = more })
              (deliver_all between s'))
  process_block_again now later b c txs more between s s' r same e =
      elim (either b.height s s' r (rw e at (process_block-StoredOrSame now b txs s))) [
        | inl stored ↦ inr (
            process_block-stored later c more (deliver_all between s')
              (rw same (deliver_all-kept b.height between s' stored)))
        | inr same_tables ↦ inl same_tables
      ]
