-- ===== src/Repository/Accounts.antt =====
-- The account operations: `AddAccount`, `GetAccount`, `GetAccounts`, `GetBalances` and
-- `IncrementAccountBalance`.
pub mod Laws
pub mod Answers
pub mod Sums
use gno_land_block_indexer.Prelude.{
  Bool, String, Option, none, some, List, [], ◌∷◌, ◌++◌, map, ℤ, if◌then◌else◌, str_eq,
}
use gno_land_block_indexer.Float64.{Float64, of_int64}
use gno_land_block_indexer.Model.{Account, TokenBalance, zero_time}
use gno_land_block_indexer.Ent.Error.{Error, Result, ok, err, wrap, is_not_found, only_node}
use gno_land_block_indexer.Ent.Tables.{AccountRow, AccountPredicate, id_eq, token_eq}
use gno_land_block_indexer.Ent.Database.{Database}
use gno_land_block_indexer.Ent.Client.{save_account, then_nodes, all_nodes, reply_result}

abbrev pub account_row : Account → AccountRow
account_row a = record { address = a.address; token = a.token; amount = a.amount }

-- The conditions of `GetAccount` and `GetAccounts`: an empty text asks for nothing.
abbrev pub account_where : String → String → List AccountPredicate
account_where address token =
    (if str_eq address "" then [] else id_eq address ∷ [])
    ++ (if str_eq token "" then [] else token_eq token ∷ [])

module _ (D : Database) where
  open D use {State}

  abbrev account_added : Result (Unit {0}) × State → Result (Unit {0}) × State
  account_added (ok _, s) = (ok tt, s)
  account_added (err e, s) = (err (wrap "failed to add account" e), s)

  unfoldable pub add_account : Account → State → Result (Unit {0}) × State
  add_account a s = account_added (save_account D (account_row a) s)

  -- The answer of `GetAccount` carries the address and the token that were asked for.
  abbrev found_account : String → String → Result AccountRow → Result (Option Account)
  found_account address token (ok r) = ok (
      some (record { address = address; token = token; amount = r.amount; created_at = zero_time }))
  found_account address token (err e) =
      if is_not_found e then ok none else err (wrap "failed to get account" e)

  unfoldable pub get_account : String → String → State → Result (Option Account)
  get_account address token s =
      found_account address token
        (then_nodes (D.select_accounts (account_where address token) (some 2) s) only_node)

  abbrev account_model : AccountRow → Account
  account_model r = record {
    address = r.address;
    token = r.token;
    amount = r.amount;
    created_at = zero_time;
  }

  abbrev found_accounts : Result (List AccountRow) → Result (List Account)
  found_accounts (ok rs) = ok (map account_model rs)
  found_accounts (err e) = if is_not_found e then ok [] else err (wrap "failed to get accounts" e)

  unfoldable pub get_accounts : String → String → State → Result (List Account)
  get_accounts address token s =
      found_accounts (all_nodes (D.select_accounts (account_where address token) none s))

  abbrev balance_model : String × Float64 → TokenBalance
  balance_model (token, amount) = record { token = token; amount = amount }

  abbrev found_balances : Result (List (String × Float64)) → Result (List TokenBalance)
  found_balances (ok g) = ok (map balance_model g)
  found_balances (err e) = if is_not_found e then ok [] else err (wrap "failed to get balances" e)

  unfoldable pub get_balances : String → State → Result (List TokenBalance)
  get_balances address s =
      found_balances (
        all_nodes (D.sum_amounts_by_token (if str_eq address "" then [] else id_eq address ∷ []) s))

  abbrev balance_incremented : Result (Unit {0}) × State → Result (Unit {0}) × State
  balance_incremented (ok _, s) = (ok tt, s)
  balance_incremented (err e, s) = (
    err (
        if is_not_found e
        then wrap "account not found" e
        else wrap "failed to increment account balance" e),
    s,
  )

  unfoldable pub increment_account_balance : String → String → ℤ → State → Result (Unit {0}) × State
  increment_account_balance address token amount s =
      let (r, s') = D.update_accounts (id_eq address ∷ token_eq token ∷ []) (of_int64 amount) s in
      balance_incremented (reply_result r, s')
