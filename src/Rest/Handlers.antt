-- ===== src/Rest/Handlers.antt =====
-- The handlers of cmd/indexer-rest/controller/controller.go: what each writes.
pub mod Laws
use gno_land_block_indexer.Prelude.{ℕ, String, Option, none, some, List, [], ◌∷◌, map, ℤ}
use gno_land_block_indexer.Float64.{to_int64}
use gno_land_block_indexer.Model.{Account, TokenBalance, Transfer}
use gno_land_block_indexer.Ent.Error.{Result, ok, err}
use gno_land_block_indexer.Ent.Database.{Database}
use gno_land_block_indexer.Rest.Service.{
  get_token_balances, get_token_account_balances, get_transfer_history,
}
use gno_land_block_indexer.Rest.Routes.{
  Route, balances, transfer_history, empty_token_path, not_found, account_balances, token_routes,
}

pub record BalanceItem : Type 0 where
  pub token_path : String
  pub amount : ℤ

pub record AccountItem : Type 0 where
  pub address : String
  pub token_path : String
  pub amount : ℤ

pub record TransferItem : Type 0 where
  pub from_address : String
  pub to_address : String
  pub token : String
  pub amount : ℤ

-- A body before it is rendered; `error` is `gin.H{"error": …}`, and `empty` is a body never written.
pub data Body : Type 0 where
  empty : Body
  error text : String → Body
  balance_list : List BalanceItem → Body
  account_list : List AccountItem → Body
  transfer_list : List TransferItem → Body

pub record Response : Type 0 where
  pub status : ℕ
  pub body : Body

abbrev pub respond : ℕ → Body → Response
respond status body = record { status = status; body = body }

-- The framework's answer where a handler writes nothing.
abbrev pub unwritten : Response
unwritten = respond 200 empty

abbrev balance_item : TokenBalance → BalanceItem
balance_item b = record { token_path = b.token; amount = to_int64 b.amount }

abbrev account_item : Account → AccountItem
account_item a = record { address = a.address; token_path = a.token; amount = to_int64 a.amount }

abbrev transfer_item : Transfer → TransferItem
transfer_item t = record {
  from_address = t.from_address;
  to_address = t.to_address;
  token = t.token;
  amount = to_int64 t.amount;
}

-- The query of a request: what `ShouldBindQuery` binds, and what `Query("address")` returns.
pub record Query : Type 0 where
  pub bound : Option String
  pub address : String

module _ (D : Database) where
  open D use {State}

  abbrev balances_response : Result (List TokenBalance) → Response
  balances_response (ok bs) = respond 200 (balance_list (map balance_item bs))
  balances_response (err e) = respond 500 (error "Failed to get account balances")

  abbrev bound_balances : Option String → State → Response
  bound_balances none s = respond 400 (error "Invalid request")
  bound_balances (some address) s = balances_response (get_token_balances D address s)

  unfoldable pub handle_token_balances : Query → State → Response
  handle_token_balances q s = bound_balances q.bound s

  -- An error is not answered: the handler returns before it writes.
  abbrev accounts_response : Result (List Account) → Response
  accounts_response (ok accounts) = respond 200 (account_list (map account_item accounts))
  accounts_response (err e) = unwritten

  unfoldable pub handle_token_account_balances : Query → String → State → Response
  handle_token_account_balances q token_path s =
      accounts_response (get_token_account_balances D token_path q.address s)

  abbrev transfers_response : Result (List Transfer) → Response
  transfers_response (ok ts) = respond 200 (transfer_list (map transfer_item ts))
  transfers_response (err e) = unwritten

  -- The request's struct is declared and never bound, so its address is empty.
  unfoldable pub handle_transfer_history : Query → State → Response
  handle_transfer_history q s = transfers_response (get_transfer_history D "" s)

  abbrev answer_route : Query → Route → State → Response
  answer_route q balances s = handle_token_balances q s
  answer_route q transfer_history s = handle_transfer_history q s
  answer_route q (account_balances token_path) s = handle_token_account_balances q token_path s
  answer_route q empty_token_path s = respond 400 (error "Token path cannot be empty")
  answer_route q not_found s = respond 404 (error "endpoint not found")

  unfoldable pub handle_token_routes : Query → String → State → Response
  handle_token_routes q path s = answer_route q (token_routes path) s
