-- ===== src/Repository/Transactions/Laws.antt =====
-- What the transaction operations do to the table, and the round trip of a row.
use gno_land_block_indexer.Prelude.{
  ◌≡◌, ap, refl, ◌⊎◌, inl, inr, true, List, [], ◌∷◌, ◌++◌, map, ℤ, arith, append-nil,
}
use gno_land_block_indexer.Model.{Time, Transaction}
use gno_land_block_indexer.Ent.Error.{Result, ok, err}
use gno_land_block_indexer.Ent.Tables.{Tables, TransactionRow, transactions_fit}
use gno_land_block_indexer.Ent.Database.{Database, IsLawful}
use gno_land_block_indexer.Ent.Client.{save_transactions, transaction_check}
use gno_land_block_indexer.Ent.Client.Laws.{Applied, save_bulk-Applied}
use gno_land_block_indexer.Ent.Post.{Post}
use gno_land_block_indexer.Repository.Convert.{messages_round_trip, response_round_trip}
use gno_land_block_indexer.Repository.Transactions.{
  transaction_row, transaction_model, transactions_added, add_transactions,
}

-- A transaction's row gives the transaction back: every field survives the conversions.
pub transaction_round_trip :
    (now : Time) (h : ℤ) (tx : Transaction) → transaction_model (transaction_row now h tx) ≡ tx
unfolding transaction_model transaction_row
transaction_round_trip now h tx =
    ground (arith, messages_round_trip tx.messages, response_round_trip tx.response)

module _ (D : Database) (L : IsLawful D) where
  open D use {State, tables}

  abbrev pub stored : Tables → List TransactionRow → Tables
  stored ts rs = record ts { transactions = ts.transactions ++ rs }

  -- All of the rows were added, or none.
  abbrev pub AllOrNone : Tables → List TransactionRow → State → Type 0
  AllOrNone ts rs s =
      ((transactions_fit rs ts ≡ true) × (tables s ≡ stored ts rs)) ⊎ (tables s ≡ ts)

  stored_out :
      (rs : List TransactionRow) (s : State) (out : Result (Unit {0}) × State)
      → Applied D (transactions_fit rs (tables s)) (stored (tables s) rs) s out
      → Post
          (transactions_added D out)
          (λ _ s'. AllOrNone (tables s) rs s')
          (λ s'. tables s' ≡ tables s)
  stored_out rs s (ok _, s') h = inl h
  stored_out rs s (err e, s') h = ground arith

  -- On a lawful database, `AddTransactions` adds every row, and their block is then stored, or none; if
  -- it returns an error, none.
  pub add_transactions-AllOrNone :
      (now : Time) (h : ℤ) (txs : List Transaction) (s : State)
      → Post
          (add_transactions D now h txs s)
          (λ _ s'. AllOrNone (tables s) (map (transaction_row now h) txs) s')
          (λ s'. tables s' ≡ tables s)
  unfolding add_transactions save_transactions
  add_transactions-AllOrNone now h [] s = inr refl
  add_transactions-AllOrNone now h (tx ∷ txs) s =
      let rs = map (transaction_row now h) (tx ∷ txs) in
      stored_out rs s _ (
        save_bulk-Applied D transaction_check D.insert_transactions
          (λ l. transactions_fit l (tables s)) (stored (tables s)) rs s refl
          (ap (λ rs. record (tables s) { transactions = rs }) (append-nil (tables s).transactions))
          (L.insert_transactions-Write rs s))
