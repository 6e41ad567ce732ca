-- ===== src/Repository/Transfers.antt =====
-- The transfer operations: `AddTransfer`, `AddTransfers` and `GetTransfers`.
pub mod Laws
pub mod Rejected
use gno_land_block_indexer.Prelude.{
  String, Option, none, some, List, [], ◌∷◌, ◌++◌, map, if◌then◌else◌, str_eq,
}
use gno_land_block_indexer.Text.{to_lower}
use gno_land_block_indexer.Model.{Time, Transaction, Transfer}
use gno_land_block_indexer.Ent.Error.{Error, Result, ok, err, wrap, is_not_found}
use gno_land_block_indexer.Ent.Tables.{
  TransferRow, TransferPredicate, from_eq, to_eq, transfer_token_eq, func_eq,
}
use gno_land_block_indexer.Ent.Database.{Database}
use gno_land_block_indexer.Ent.Client.{save_transfer, save_transfers, all_nodes}

-- An address is set only if it is not empty.
abbrev pub optional : String → Option String
optional a = if str_eq a "" then none else some a

-- A column that is NULL is read as the empty text.
abbrev pub or_empty : Option String → String
or_empty none = ""
or_empty (some a) = a

unfoldable pub transfer_row : Time → Transaction → Transfer → TransferRow
transfer_row now tx t = record {
  hash = tx.hash;
  func = to_lower t.func;
  from_address = optional t.from_address;
  to_address = optional t.to_address;
  token = t.token;
  amount = t.amount;
  denom = t.denom;
  created_at = now;
}

-- The function's name is not read back.
abbrev pub transfer_model : TransferRow → Transfer
transfer_model r = record {
  func = "";
  from_address = or_empty r.from_address;
  to_address = or_empty r.to_address;
  token = r.token;
  amount = r.amount;
  denom = r.denom;
  created_at = r.created_at;
}

-- Each `Where` adds its condition to the others; `Or` of a single condition is that condition.
abbrev pub transfer_where : String → String → String → List TransferPredicate
transfer_where from_account_or to_account_or token =
    (if str_eq from_account_or "" then [] else from_eq from_account_or ∷ [])
    ++ ((if str_eq to_account_or "" then [] else to_eq to_account_or ∷ [])
        ++ ((if str_eq token "" then [] else transfer_token_eq token ∷ [])
            ++ func_eq "transfer" ∷ []))

module _ (D : Database) where
  open D use {State}

  abbrev transfer_added : Result (Unit {0}) × State → Result (Unit {0}) × State
  transfer_added (ok _, s) = (ok tt, s)
  transfer_added (err e, s) = (err (wrap "failed to add transfer" e), s)

  unfoldable pub add_transfer : Time → Transaction → Transfer → State → Result (Unit {0}) × State
  add_transfer now tx t s = transfer_added (save_transfer D (transfer_row now tx t) s)

  abbrev pub transfers_added : Result (Unit {0}) × State → Result (Unit {0}) × State
  transfers_added (ok _, s) = (ok tt, s)
  transfers_added (err e, s) = (err (wrap "failed to add transfers" e), s)

  unfoldable pub add_transfers :
      Time → Transaction → List Transfer → State → Result (Unit {0}) × State
  add_transfers now tx ts s = transfers_added (save_transfers D (map (transfer_row now tx) ts) s)

  abbrev found_transfers : Result (List TransferRow) → Result (List Transfer)
  found_transfers (ok rs) = ok (map transfer_model rs)
  found_transfers (err e) = if is_not_found e then ok [] else err (wrap "failed to get transfer" e)

  unfoldable pub get_transfers : String → String → String → State → Result (List Transfer)
  get_transfers from_account_or to_account_or token s =
      found_transfers
        (all_nodes (D.select_transfers (transfer_where from_account_or to_account_or token) s))
