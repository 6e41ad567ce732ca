-- ===== src/Ent/Client.antt =====
-- The builders of ent/: what `check` refuses, `Save` of one builder and of a bulk, and the queries'
-- `Only` and `First`. A builder is modelled by the row that it would insert: the program sets every
-- required field, so the checks for a missing one cannot fail.
pub mod Laws
use gno_land_block_indexer.Prelude.{
  ℕ, zero, suc, Bool, true, false, String, Option, none, some, List, [], ◌∷◌, ℤ, pos, if◌then◌else◌,
  str_eq,
}
use gno_land_block_indexer.Float64.{is_positive}
use gno_land_block_indexer.Ent.Error.{
  Error, validation, constraint, driver, Result, ok, err, only_node, first_node,
}
use gno_land_block_indexer.Ent.Tables.{
  BlockRow, TransactionRow, AccountRow, TransferRow, HistoryRow, AccountPredicate,
}
use gno_land_block_indexer.Ent.Database.{Reply, accepted, refused, failed, Database}

-- The validator `NotEmpty`.
abbrev not_empty : String → String → Option Error → Option Error
not_empty name v next = if str_eq v "" then some (validation name) else next

unfoldable pub account_check : AccountRow → Option Error
account_check r = not_empty "token" r.token (not_empty "id" r.address none)

unfoldable pub block_check : BlockRow → Option Error
block_check r = not_empty "hash" r.hash none

unfoldable pub transaction_check : TransactionRow → Option Error
transaction_check r = not_empty "hash" r.hash none

unfoldable pub transfer_check : TransferRow → Option Error
transfer_check r = not_empty "hash" r.hash (
    not_empty "func" r.func (
      not_empty "token" r.token (
        if is_positive r.amount
        then not_empty "denom" r.denom none
        else some (validation "amount"))))

-- The chain of mutators checks the builders in order and stops at the first error.
abbrev pub check_all {ℓ} : {R : Type ℓ} → (R → Option Error) → List R → Option Error
check_all check [] = none
check_all check (r ∷ rs) = elim (check r) [ none ↦ check_all check rs | some e ↦ some e ]

-- `sqlgraph`'s error as the client reports it.
abbrev pub reply_result : Reply → Result (Unit {0})
reply_result accepted = ok tt
reply_result refused = err constraint
reply_result failed = err driver

module _ (D : Database) where
  open D use {State}

  -- A statement that runs if the check has passed.
  abbrev pub run_checked :
      Option Error → (State → Reply × State) → State → Result (Unit {0}) × State
  run_checked (some e) statement s = (err e, s)
  run_checked none statement s = let (r, s') = statement s in (reply_result r, s')

  -- `Save` of a bulk: no statement is run for an empty one.
  abbrev pub save_bulk {ℓ} :
      {R : Type ℓ}
      → (R → Option Error)
      → (List R → State → Reply × State)
      → List R
      → State
      → Result (Unit {0}) × State
  save_bulk check insert [] s = (ok tt, s)
  save_bulk check insert (r ∷ rs) s = run_checked (check_all check (r ∷ rs)) (insert (r ∷ rs)) s

  unfoldable pub save_block : BlockRow → State → Result (Unit {0}) × State
  save_block r = run_checked (block_check r) (D.insert_blocks (r ∷ []))

  unfoldable pub save_blocks : List BlockRow → State → Result (Unit {0}) × State
  save_blocks = save_bulk block_check D.insert_blocks

  unfoldable pub save_transaction : TransactionRow → State → Result (Unit {0}) × State
  save_transaction r = run_checked (transaction_check r) (D.insert_transactions (r ∷ []))

  unfoldable pub save_transactions : List TransactionRow → State → Result (Unit {0}) × State
  save_transactions = save_bulk transaction_check D.insert_transactions

  unfoldable pub save_account : AccountRow → State → Result (Unit {0}) × State
  save_account r = run_checked (account_check r) (D.insert_account r)

  unfoldable pub save_transfer : TransferRow → State → Result (Unit {0}) × State
  save_transfer r = run_checked (transfer_check r) (D.insert_transfers (r ∷ []))

  unfoldable pub save_transfers : List TransferRow → State → Result (Unit {0}) × State
  save_transfers = save_bulk transfer_check D.insert_transfers

-- A query's rows, or the driver's error.
abbrev pub all_nodes {ℓ} : {A : Type ℓ} → Option A → Result A
all_nodes none = err driver
all_nodes (some rows) = ok rows

abbrev pub then_nodes {ℓ} : {A : Type ℓ} → Option (List A) → (List A → Result A) → Result A
then_nodes none finish = err driver
then_nodes (some rows) finish = finish rows
