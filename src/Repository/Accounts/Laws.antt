-- ===== src/Repository/Accounts/Laws.antt =====
-- What the account operations do to the table, and what a lookup finds.
use gno_land_block_indexer.Prelude.{
  ◌≡◌, ◌≢◌, ◌⊎◌, inl, inr, Bool, true, false, not, String, Option, none, some, List, [], ◌∷◌, ◌++◌,
  ℤ, take, keep, eq_iff, arith,
}
use gno_land_block_indexer.Float64.{of_int64}
use gno_land_block_indexer.Model.{Account}
use gno_land_block_indexer.Ent.Error.{Result, ok, err, only_node}
use gno_land_block_indexer.Ent.Tables.{Tables, AccountRow, has_account}
use gno_land_block_indexer.Ent.Database.{Database, IsLawful, Answers}
use gno_land_block_indexer.Ent.Client.{then_nodes, account_check, save_account}
use gno_land_block_indexer.Ent.Client.Laws.{Applied, reply_result-Applied, run_checked-Applied}
use gno_land_block_indexer.Ent.Balances.{
  key, is_account, exists_account, credit, keep-eq-nil, keep-ne-nil,
}
use gno_land_block_indexer.Repository.Accounts.{
  account_row, account_where, found_account, account_added, add_account, get_account,
  balance_incremented, increment_account_balance,
}

abbrev pub is_found : Option Account → Bool
is_found none = false
is_found (some a) = true

pub account_where_of_ne : (a t : String) → a ≢ "" → t ≢ "" → account_where a t ≡ key a t
account_where_of_ne a t ha ht = ground (arith, eq_iff a "", eq_iff t "")

module _ (D : Database) (L : IsLawful D) where
  open D use {State, tables}

  -- `Only` over the rows that are there: none, one, or an error.
  found_only :
      (a t : String) (o : Option (List AccountRow)) (rows : List AccountRow)
      (found : Option Account)
      → Answers o (take 2 rows)
      → found_account D a t (then_nodes o only_node) ≡ ok found
      → ((found ≡ none) × (rows ≡ [])) ⊎ ((is_found found ≡ true) × (rows ≢ []))
  found_only a t none rows found h e = ground arith
  found_only a t (some l) [] found h e = ground arith
  found_only a t (some l) (r ∷ []) found h e = ground arith
  found_only a t (some l) (r ∷ q ∷ rest) found h e = ground arith

  -- A lookup that answers tells whether the account exists.
  pub get_account-exists :
      (a t : String) (s : State) (found : Option Account)
      → a ≢ ""
      → t ≢ ""
      → get_account D a t s ≡ ok found
      → is_found found ≡ exists_account a t (tables s).accounts
  unfolding get_account
  get_account-exists a t s found ha ht e =
      let rows = (tables s).accounts in
      elim (found_only a t (D.select_accounts (key a t) (some 2) s) (keep (is_account a t) rows)
        found (L.select_accounts-Answers (key a t) (some 2) s)
        (rw (account_where_of_ne a t ha ht) at e)) [
          | inl (missing, empty) ↦ ground (arith, keep-ne-nil a t rows)
          | inr (there, full) ↦ ground (arith, keep-eq-nil a t rows)
        ]

  account_added-Applied :
      (fits : Bool) (after : Tables) (s : State) (out : Result (Unit {0}) × State)
      → Applied D fits after s out
      → Applied D fits after s (account_added D out)
  account_added-Applied fits after s (ok _, s') h = h
  account_added-Applied fits after s (err e, s') h = h

  -- A new account is added only if its address is new.
  pub add_account-Applied :
      (a : Account) (s : State)
      → let t = tables s in
        Applied D
          (not (has_account a.address t.accounts))
          (record t { accounts = t.accounts ++ account_row a ∷ [] })
          s
          (add_account D a s)
  unfolding add_account save_account
  add_account-Applied a s = account_added-Applied _ _ s _ (
      run_checked-Applied D (account_check (account_row a)) (D.insert_account (account_row a)) _ _ s
        (L.insert_account-Write (account_row a) s))

  incremented-Applied :
      (fits : Bool) (after : Tables) (s : State) (out : Result (Unit {0}) × State)
      → Applied D fits after s out
      → Applied D fits after s (balance_incremented D out)
  incremented-Applied fits after s (ok _, s') h = h
  incremented-Applied fits after s (err e, s') h = h

  -- An increment changes exactly the account of the address and the token.
  pub increment_account_balance-Applied :
      (a t : String) (v : ℤ) (s : State)
      → let ts = tables s in
        Applied D true
          (record ts { accounts = credit a t (of_int64 v) ts.accounts })
          s
          (increment_account_balance D a t v s)
  unfolding increment_account_balance
  increment_account_balance-Applied a t v s = incremented-Applied _ _ s _ (
      reply_result-Applied D _ _ s (D.update_accounts (key a t) (of_int64 v) s)
        (L.update_accounts-Write (key a t) (of_int64 v) s))
