-- ===== src/EventProcessor/Workers/Others.antt =====
-- Statements that other workers run in between: those of `AddBlock`, and those of any processing, or of
-- any mint, that is under way.
use gno_land_block_indexer.Prelude.{
  ◌≡◌, ◌∙◌, inl, inr, Bool, true, false, String, List, [], ◌∷◌, ℤ, str_eq,
}
use gno_land_block_indexer.Model.{Time, Block, Transaction}
use gno_land_block_indexer.Ent.Error.{Result, ok, err}
use gno_land_block_indexer.Ent.Post.{Post, Post-weaken}
use gno_land_block_indexer.Ent.Program.{Program, ret, step, advance}
use gno_land_block_indexer.Ent.Tables.{Tables, has_account}
use gno_land_block_indexer.Ent.WellFormed.{has_account-credit, any-append_left}
use gno_land_block_indexer.Ent.Database.{Database, IsLawful}
use gno_land_block_indexer.Repository.Blocks.{add_block, block_row}
use gno_land_block_indexer.Repository.Blocks.Laws.{Added, add_block-Added}
use gno_land_block_indexer.Repository.Transactions.{add_transactions}
use gno_land_block_indexer.Repository.Transactions.Laws.{add_transactions-AllOrNone}
use gno_land_block_indexer.EventProcessor.Handlers.Stability.{IsClosed, Keeps}
use gno_land_block_indexer.EventProcessor.Statements.{handle_mint, process_stored}
use gno_land_block_indexer.EventProcessor.Statements.Keeps.{
  StepsKeep, handle_mint-StepsKeep, process_stored-StepsKeep,
}

-- The address has an account.
abbrev pub HasAccount : String → Tables → Type 0
HasAccount a t = has_account a t.accounts ≡ true

HasAccount-IsClosed : (a : String) → IsClosed (HasAccount a)
HasAccount-IsClosed a = record {
  add_account = λ t r new k. any-append_left (λ q. str_eq q.address a) t.accounts (r ∷ []) k;
  credit_account = λ t b token x k. has_account-credit a b token x t.accounts ∙ k;
  add_transfers = λ t rs fits k. k;
}

module _ (D : Database) where
  open D use {State}

  -- What is left of a worker's processing, or of a mint, after some of its statements, whatever the
  -- states in which they ran.
  pub data Leftover : Program State (Unit {0}) → Type 0 where
    processing :
        (now : Time) (b : Block) (txs : List Transaction) → Leftover (process_stored D now b txs)
    minting : (now : Time) (pkg a : String) (v : ℤ) → Leftover (handle_mint D now pkg a v)
    later : {p : Program State (Unit {0})} → Leftover p → (s : State) → Leftover (advance p s).0

  -- The second state comes from the first by statements of other workers, in any number and order.
  pub data Others : State → State → Type 0 where
    nothing : {s : State} → Others s s
    add : {s s' : State} (now : Time) (b : Block) → Others (add_block D now b s).1 s' → Others s s'
    run :
        {s s' : State} {p : Program State (Unit {0})}
        → Leftover p
        → Others (advance p s).1 s'
        → Others s s'

module _ (D : Database) (L : IsLawful D) (a : String) where
  open D use {State, tables}

  add_transactions-Keeps :
      (now : Time) (h : ℤ) (txs : List Transaction)
      → Keeps D L (HasAccount a) (HasAccount-IsClosed a) (add_transactions D now h txs)
  add_transactions-Keeps now h txs s k =
      Post-weaken _ _ _ _ (add_transactions D now h txs s)
        (add_transactions-AllOrNone D L now h txs s)
        (λ _ s' j. elim j [ inl (fits, added) ↦ rw added k | inr same ↦ rw same k ])
        (λ s' j. rw j k)

  advance-StepsKeep :
      (p : Program State (Unit {0})) (s : State)
      → StepsKeep D (HasAccount a) p
      → StepsKeep D (HasAccount a) (advance p s).0
  advance-StepsKeep (ret r) s h = tt
  advance-StepsKeep (step next rest) s h = (h s).1

  Leftover-StepsKeep : (p : Program State (Unit {0})) → Leftover D p → StepsKeep D (HasAccount a) p
  Leftover-StepsKeep _ (processing now b txs) =
      process_stored-StepsKeep D L (HasAccount a) (HasAccount-IsClosed a) now b txs
        (add_transactions-Keeps now b.height txs)
  Leftover-StepsKeep _ (minting now pkg to v) =
      handle_mint-StepsKeep D L (HasAccount a) (HasAccount-IsClosed a) now pkg to v
  Leftover-StepsKeep _ (later {p = p} l s) = advance-StepsKeep p s (Leftover-StepsKeep p l)

  statement_kept :
      (p : Program State (Unit {0})) (s : State)
      → StepsKeep D (HasAccount a) p
      → HasAccount a (tables s)
      → HasAccount a (tables (advance p s).1)
  statement_kept (ret r) s h k = k
  statement_kept (step next rest) s h k = (h s).0 k

  added_kept :
      (now : Time) (b : Block) (s : State) (out : Result Bool × State)
      → Post out (Added D L (tables s) (block_row now b)) (λ s'. tables s' ≡ tables s)
      → HasAccount a (tables s)
      → HasAccount a (tables out.1)
  added_kept now b s (ok true, s') (stored, same) k = rw same k
  added_kept now b s (ok false, s') (new, added) k = rw added k
  added_kept now b s (err e, s') same k = rw same k

  -- No statement of another worker takes an account away.
  pub others_kept :
      (s s' : State) → Others D s s' → HasAccount a (tables s) → HasAccount a (tables s')
  others_kept s _ nothing k = k
  others_kept s s' (add now b rest) k =
      others_kept (add_block D now b s).1 s' rest
        (added_kept now b s (add_block D now b s) (add_block-Added D L now b s) k)
  others_kept s s' (run {p = p} l rest) k =
      others_kept (advance p s).1 s' rest (statement_kept p s (Leftover-StepsKeep p l) k)
