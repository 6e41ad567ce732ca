-- ===== src/EventProcessor/Process/Invariant.antt =====
-- What every delivery of a block keeps, whatever it returns: the invariant of the tables.
use gno_land_block_indexer.Prelude.{inl, inr, Bool, true, false, Option, none, some, List, map}
use gno_land_block_indexer.Model.{Time, Block, Transaction, BlockWithTransactions}
use gno_land_block_indexer.Ent.Action.{Action, annotate}
use gno_land_block_indexer.Ent.Post.{Post, Post-weaken}
use gno_land_block_indexer.Ent.Tables.{Tables, BlockRow}
use gno_land_block_indexer.Ent.Database.{Database, IsLawful}
use gno_land_block_indexer.Ent.WellFormed.{
  WellFormed, WellFormed-add_account, WellFormed-credit, WellFormed-add_transfers,
  WellFormed-add_transactions, WellFormed-add_block,
}
use gno_land_block_indexer.Repository.Blocks.{add_block, block_row}
use gno_land_block_indexer.Repository.Blocks.Laws.{Added, add_block-Added}
use gno_land_block_indexer.Repository.Transactions.{add_transactions, transaction_row}
use gno_land_block_indexer.Repository.Transactions.Laws.{add_transactions-AllOrNone}
use gno_land_block_indexer.EventProcessor.Handlers.Stability.{
  IsClosed, Keeps, bind-Keeps, annotate-Keeps,
}
use gno_land_block_indexer.EventProcessor.Process.{
  parse_and_process_transactions, process_new, process_some, process_block_with_transactions,
}
use gno_land_block_indexer.EventProcessor.Process.Stability.{parse_and_process_transactions-Keeps}

pub WellFormed-IsClosed : IsClosed WellFormed
WellFormed-IsClosed = record {
  add_account = WellFormed-add_account;
  credit_account = WellFormed-credit;
  add_transfers = WellFormed-add_transfers;
}

module _ (D : Database) (L : IsLawful D) where
  open D use {State, tables}

  abbrev KeepsWellFormed : {A : Type 0} → Action State A → Type 0
  KeepsWellFormed = Keeps D L WellFormed WellFormed-IsClosed

  pub add_transactions-WellFormed :
      (now : Time) (b : Block) (txs : List Transaction)
      → KeepsWellFormed (add_transactions D now b.height txs)
  add_transactions-WellFormed now b txs s w =
      Post-weaken _ _ _ _ (add_transactions D now b.height txs s)
        (add_transactions-AllOrNone D L now b.height txs s)
        (λ _ s' h. elim h [
          | inl (fits, added) ↦ rw added (
              WellFormed-add_transactions (tables s) (map (transaction_row now b.height) txs) fits
                w)
          | inr same ↦ rw same w
        ])
        (λ s' h. rw h w)

  Added-WellFormed :
      (r : BlockRow) (exists : Bool) (t : Tables) (s : State)
      → WellFormed t
      → Added D L t r exists s
      → WellFormed (tables s)
  Added-WellFormed r true t s w (stored, same) = rw same w
  Added-WellFormed r false t s w (new, added) = rw added (WellFormed-add_block t r new w)

  pub add_block-WellFormed : (now : Time) (b : Block) → KeepsWellFormed (add_block D now b)
  add_block-WellFormed now b s w =
      Post-weaken _ _ _ _ (add_block D now b s) (add_block-Added D L now b s)
        (λ exists s' h. Added-WellFormed (block_row now b) exists (tables s) s' w h)
        (λ s' h. rw h w)

  process_new-WellFormed :
      (now : Time) (b : Block) (txs : List Transaction) (exists : Bool)
      → KeepsWellFormed (process_new D now b txs exists)
  process_new-WellFormed now b txs true s w = w
  process_new-WellFormed now b txs false s w =
      bind-Keeps D L WellFormed WellFormed-IsClosed
        (annotate "failed to add transactions" (add_transactions D now b.height txs))
        (λ _.
          annotate "failed to parse and process transactions"
            (parse_and_process_transactions D now txs))
        (annotate-Keeps D L WellFormed WellFormed-IsClosed "failed to add transactions"
          (add_transactions D now b.height txs) (add_transactions-WellFormed now b txs))
        (λ _.
          annotate-Keeps D L WellFormed WellFormed-IsClosed
            "failed to parse and process transactions" (parse_and_process_transactions D now txs)
            (parse_and_process_transactions-Keeps D L WellFormed WellFormed-IsClosed now txs))
        s w

  process_some-WellFormed :
      (now : Time) (b : Option Block) (txs : List Transaction)
      → KeepsWellFormed (process_some D now b txs)
  process_some-WellFormed now none txs s w = w
  process_some-WellFormed now (some b) txs s w =
      bind-Keeps D L WellFormed WellFormed-IsClosed
        (annotate "failed to add block" (add_block D now b)) (process_new D now b txs)
        (annotate-Keeps D L WellFormed WellFormed-IsClosed "failed to add block" (add_block D now b)
          (add_block-WellFormed now b))
        (process_new-WellFormed now b txs) s w

  -- On a lawful database with well-formed tables, whether the processing of a message returns an error
  -- or not: heights and addresses stay unique,
  -- and the transactions and transfers in the tables refer to stored blocks and to accounts.
  pub process_block-WellFormed :
      (now : Time) (m : BlockWithTransactions) (s : State)
      → WellFormed (tables s)
      → Post
          (process_block_with_transactions D now m s)
          (λ _ s'. WellFormed (tables s'))
          (λ s'. WellFormed (tables s'))
  unfolding process_block_with_transactions
  process_block-WellFormed now m s w = process_some-WellFormed now m.block m.transactions s w
