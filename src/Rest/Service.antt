-- ===== src/Rest/Service.antt =====
-- cmd/indexer-rest/service/service.go
use gno_land_block_indexer.Prelude.{String, List}
use gno_land_block_indexer.Model.{Account, TokenBalance, Transfer}
use gno_land_block_indexer.Ent.Error.{Result, ok, err, wrap}
use gno_land_block_indexer.Ent.Database.{Database}
use gno_land_block_indexer.Repository.Accounts.{get_accounts, get_balances}
use gno_land_block_indexer.Repository.Transfers.{get_transfers}

abbrev annotated : {A : Type 0} → Result A → Result A
annotated (ok a) = ok a
annotated (err e) = err (wrap "Failed to get" e)

module _ (D : Database) where
  open D use {State}

  unfoldable pub get_token_balances : String → State → Result (List TokenBalance)
  get_token_balances address s = annotated (get_balances D address s)

  unfoldable pub get_token_account_balances : String → String → State → Result (List Account)
  get_token_account_balances token address s = annotated (get_accounts D address token s)

  -- The error is returned as it is; only its log line is new.
  unfoldable pub get_transfer_history : String → State → Result (List Transfer)
  get_transfer_history address s = get_transfers D address address "" s
