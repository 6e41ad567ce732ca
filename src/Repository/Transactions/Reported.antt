-- ===== src/Repository/Transactions/Reported.antt =====
-- What `AddTransactions` reports, and when: it passes over a constraint error, and over no other.
use gno_land_block_indexer.Prelude.{
  ◌≡◌, refl, sym, ap, ◌⊎◌, inl, inr, true, false, Option, none, some, List, [], ◌∷◌, map, ℤ, arith,
  append-nil, str_eq, Bool-cases,
}
use gno_land_block_indexer.Model.{Time, Transaction}
use gno_land_block_indexer.Ent.Error.{Error, Result, ok, err, driver, wrap, is_constraint_error}
use gno_land_block_indexer.Ent.Tables.{TransactionRow, transactions_fit}
use gno_land_block_indexer.Ent.Database.{
  Database, IsLawful, Reply, accepted, refused, failed, Write, done, broken, lost,
}
use gno_land_block_indexer.Ent.Client.{check_all, run_checked, save_transactions, transaction_check}
use gno_land_block_indexer.Repository.Transactions.{
  transaction_row, transactions_added, add_transactions,
}
use gno_land_block_indexer.Repository.Transactions.Laws.{stored}

check_error_lem :
    (rs : List TransactionRow) (e : Error)
    → check_all transaction_check rs ≡ some e
    → is_constraint_error e ≡ false
unfolding transaction_check
check_error_lem [] e h = cc
check_error_lem (r ∷ rs) e h = elim (Bool-cases (str_eq r.hash "")) [
  | inl empty ↦ ground arith
  | inr named ↦ check_error_lem rs e (rw (named, check_all) at h)
]

module _ (D : Database) (L : IsLawful D) where
  open D use {State, tables}

  abbrev failure : Error → Error
  failure e = wrap "failed to add transactions" e

  -- No error: every row passes its check, and either they were all added, which the keys allowed, or the
  -- keys did not allow it and nothing changed. An error: nothing changed, and it wraps the driver's, or
  -- that of the first check that fails.
  abbrev pub IsReported : List TransactionRow → State → Result (Unit {0}) × State → Type 0
  IsReported rs s (ok _, s') =
      (check_all transaction_check rs ≡ none)
      × (((transactions_fit rs (tables s) ≡ true) × (tables s' ≡ stored D L (tables s) rs))
          ⊎ ((transactions_fit rs (tables s) ≡ false) × (tables s' ≡ tables s)))
  IsReported rs s (err e, s') =
      (tables s' ≡ tables s)
      × ((e ≡ failure driver)
          ⊎ ((f : Error) × (check_all transaction_check rs ≡ some f) × (e ≡ failure f)))

  written :
      (rs : List TransactionRow) (s : State) (out : Reply × State)
      → Write D (transactions_fit rs (tables s)) (stored D L (tables s) rs) s out
      → check_all transaction_check rs ≡ none
      → IsReported rs s (transactions_added D (run_checked D none (λ _. out) s))
  written rs s (accepted, s') (done f a e) c = (c, inl (f, e))
  written rs s (accepted, s') (broken f a e) c = cc
  written rs s (accepted, s') (lost a e) c = cc
  written rs s (refused, s') (done f a e) c = cc
  written rs s (refused, s') (broken f a e) c = (c, inr (f, e))
  written rs s (refused, s') (lost a e) c = cc
  written rs s (failed, s') (done f a e) c = cc
  written rs s (failed, s') (broken f a e) c = cc
  written rs s (failed, s') (lost a e) c = (e, inl refl)

  check_first :
      (rs : List TransactionRow) (s : State) (c : Option Error) (statement : State → Reply × State)
      → Write D (transactions_fit rs (tables s)) (stored D L (tables s) rs) s (statement s)
      → check_all transaction_check rs ≡ c
      → IsReported rs s (transactions_added D (run_checked D c statement s))
  check_first rs s none statement w e = written rs s (statement s) w e
  check_first rs s (some f) statement w e =
      let other = check_error_lem rs f e in rw other (refl, inr (f, e, refl))

  -- On a lawful database, if `AddTransactions` returns no error, each transaction has a hash, and all of
  -- their rows were added, which the keys allowed, or the keys did not allow it and nothing changed. If
  -- it returns an error, nothing changed, and the error wraps the driver's or that of the first check
  -- that fails.
  pub add_transactions-IsReported :
      (now : Time) (h : ℤ) (txs : List Transaction) (s : State)
      → IsReported (map (transaction_row now h) txs) s (add_transactions D now h txs s)
  unfolding add_transactions save_transactions
  add_transactions-IsReported now h [] s = (
    refl,
    inl (
      refl,
      ap (λ l. record (tables s) { transactions = l }) (sym (append-nil (tables s).transactions)),
    ),
  )
  add_transactions-IsReported now h (tx ∷ txs) s =
      let rs = map (transaction_row now h) (tx ∷ txs) in
      check_first rs s (check_all transaction_check rs) (D.insert_transactions rs)
        (L.insert_transactions-Write rs s) refl
