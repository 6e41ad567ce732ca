-- ===== src/Repository/Accounts/Answers.antt =====
-- When the account operations succeed on a database that does not fail.
use gno_land_block_indexer.Prelude.{
  ◌≡◌, ◌≢◌, refl, ◌⊎◌, inl, inr, Bool, true, false, String, Option, none, some, List, [], ◌∷◌, ◌++◌,
  ℤ, eq_iff, arith, take, keep,
}
use gno_land_block_indexer.Float64.{of_int64}
use gno_land_block_indexer.Model.{Account, zero_time}
use gno_land_block_indexer.Ent.Error.{ok, only_node}
use gno_land_block_indexer.Ent.Post.{Returns, Fails}
use gno_land_block_indexer.Ent.Tables.{Tables, AccountRow, has_account}
use gno_land_block_indexer.Ent.Client.{save_account, account_check, reply_result, then_nodes}
use gno_land_block_indexer.Ent.Database.{
  Database, IsLawful, IsReliable, Answers, Reply, accepted, refused, failed, Write, done, broken,
  lost,
}
use gno_land_block_indexer.Ent.Balances.{key, is_account, credit, UniqueAddresses, keep_unique}
use gno_land_block_indexer.Repository.Accounts.{
  add_account, get_account, increment_account_balance, found_account, account_added, account_row,
}
use gno_land_block_indexer.Repository.Accounts.Laws.{account_where_of_ne}

module _ (D : Database) (L : IsLawful D) where
  open D use {State, tables}

  refused_only :
      (fits : Bool) (after : Tables) (s : State) (out : Reply × State)
      → fits ≡ false
      → Write D fits after s out
      → Fails (account_added D (reply_result out.0, out.1)) (λ s'. tables s' ≡ tables s)
  refused_only fits after s (accepted, s') breaks (done f a e) = ground arith
  refused_only fits after s (accepted, s') breaks (broken f a e) = cc
  refused_only fits after s (accepted, s') breaks (lost a e) = cc
  refused_only fits after s (refused, s') breaks (done f a e) = cc
  refused_only fits after s (refused, s') breaks (broken f a e) = e
  refused_only fits after s (refused, s') breaks (lost a e) = cc
  refused_only fits after s (failed, s') breaks (done f a e) = cc
  refused_only fits after s (failed, s') breaks (broken f a e) = cc
  refused_only fits after s (failed, s') breaks (lost a e) = e

  -- An address that has an account for any token gets no second one.
  pub add_account-Fails :
      (a : Account) (s : State)
      → has_account a.address (tables s).accounts ≡ true
      → Fails (add_account D a s) (λ s'. tables s' ≡ tables s)
  unfolding add_account save_account account_check
  add_account-Fails a s h = ground (
    arith,
    refused_only _ _ s (D.insert_account (account_row a) s) (rw h refl)
        (L.insert_account-Write (account_row a) s),
  )

  module _ (R : IsReliable D) where
    single_found :
        (a t : String) (o : Option (List AccountRow)) (rows : List AccountRow)
        → o ≢ none
        → Answers o (take 2 rows)
        → (rows ≡ []) ⊎ ((r : AccountRow) × (rows ≡ r ∷ []))
        → (found : Option Account) × (found_account D a t (then_nodes o only_node) ≡ ok found)
    single_found a t none rows some_o h c = absurd (some_o refl)
    single_found a t (some l) rows some_o h (inl empty) = (none, ground arith)
    single_found a t (some l) rows some_o h (inr (r, one)) =
        let only : l ≡ r ∷ [] = ground arith in
        (
          some (record { address = a; token = t; amount = r.amount; created_at = zero_time }),
          rw only refl,
        )

    -- With one account per address, a lookup has an answer.
    pub get_account-ok :
        (a t : String) (s : State)
        → a ≢ ""
        → t ≢ ""
        → UniqueAddresses (tables s).accounts
        → (found : Option Account) × (get_account D a t s ≡ ok found)
    unfolding get_account
    get_account-ok a t s ha ht u = rw (account_where_of_ne a t ha ht) (
        single_found a t (D.select_accounts (key a t) (some 2) s)
          (keep (is_account a t) (tables s).accounts) (R.select_accounts_ne (key a t) (some 2) s)
          (L.select_accounts-Answers (key a t) (some 2) s) (keep_unique a t (tables s).accounts u))

    pub accepted_only :
        (fits : Bool) (after : Tables) (s : State) (out : Reply × State)
        → fits ≡ true
        → out.0 ≢ failed
        → Write D fits after s out
        → Returns (reply_result out.0, out.1) (λ _ s'. tables s' ≡ after)
    accepted_only fits after s (accepted, s') ok_fits ne (done f a e) = e
    accepted_only fits after s (accepted, s') ok_fits ne (broken f a e) = cc
    accepted_only fits after s (accepted, s') ok_fits ne (lost a e) = cc
    accepted_only fits after s (refused, s') ok_fits ne (done f a e) = cc
    accepted_only fits after s (refused, s') ok_fits ne (broken f a e) = ground arith
    accepted_only fits after s (refused, s') ok_fits ne (lost a e) = cc
    accepted_only fits after s (failed, s') ok_fits ne w = absurd (ne refl)

    -- A new address gets its account.
    pub add_account-Returns :
        (a : Account) (s : State)
        → a.address ≢ ""
        → a.token ≢ ""
        → has_account a.address (tables s).accounts ≡ false
        → Returns (add_account D a s) (λ _ s'.
          tables s' ≡ record (tables s) { accounts = (tables s).accounts ++ account_row a ∷ [] })
    unfolding add_account save_account account_check
    add_account-Returns a s ha ht new = ground (
      arith,
      eq_iff a.address "",
      eq_iff a.token "",
      accepted_only _ _ s (D.insert_account (account_row a) s) (rw new refl)
          (R.insert_account_ne (account_row a) s) (L.insert_account-Write (account_row a) s),
    )

    pub increment_account_balance-Returns :
        (a t : String) (v : ℤ) (s : State)
        → Returns (increment_account_balance D a t v s) (λ _ s'.
          tables s' ≡ record (tables s) { accounts = credit a t (of_int64 v) (tables s).accounts })
    unfolding increment_account_balance
    increment_account_balance-Returns a t v s = ground (
      arith,
      accepted_only _ _ s (D.update_accounts (key a t) (of_int64 v) s) refl
          (R.update_accounts_ne (key a t) (of_int64 v) s)
          (L.update_accounts-Write (key a t) (of_int64 v) s),
    )
