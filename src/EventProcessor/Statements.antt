-- ===== src/EventProcessor/Statements.antt =====
-- The event processor's code as programs: each call of the repository is one statement, and the
-- workers' statements may alternate. Run alone, they are the functions of Handlers and Process.
pub mod Alone
pub mod Keeps
use gno_land_block_indexer.Prelude.{
  Bool, String, Option, none, some, List, [], ◌∷◌, ◌++◌, ℤ, neg64, if◌then◌else◌, str_eq,
}
use gno_land_block_indexer.Text.{to_lower}
use gno_land_block_indexer.Model.{Time, Block, Event, Transaction, Transfer, Account, zero_time}
use gno_land_block_indexer.Ent.Error.{ok, bad_number, wrap}
use gno_land_block_indexer.Ent.Action.{reads}
use gno_land_block_indexer.Ent.Program.{Program, pure, fail, statement, ◌>>=◌, ◌>>◌, annotate}
use gno_land_block_indexer.Ent.Database.{Database}
use gno_land_block_indexer.Repository.Accounts.{add_account, get_account, increment_account_balance}
use gno_land_block_indexer.Repository.Transactions.{add_transactions}
use gno_land_block_indexer.Repository.Transfers.{add_transfers}
use gno_land_block_indexer.EventProcessor.Attributes.{Parsed, unparsed, read_attrs}
use gno_land_block_indexer.EventProcessor.Handlers.{new_account}
use gno_land_block_indexer.EventProcessor.Process.{transfer_of, is_transfer_event}

module _ (D : Database) where
  open D use {State}

  abbrev add_if_missing : Time → String → String → Option Account → Program State (Unit {0})
  add_if_missing now address token none =
      annotate "Failed to add account" (statement (add_account D (new_account now address token)))
  add_if_missing now address token (some a) = pure tt

  unfoldable pub ensure_account : Time → String → String → Program State (Unit {0})
  ensure_account now address token = do
    found ← statement (reads (get_account D address token))
    add_if_missing now address token found

  abbrev pub increment : String → String → String → ℤ → Program State (Unit {0})
  increment msg address token value =
      annotate msg (statement (increment_account_balance D address token value))

  unfoldable pub handle_mint : Time → String → String → ℤ → Program State (Unit {0})
  handle_mint now pkg to_address value = if str_eq to_address "" then pure tt else (do
    ensure_account now to_address pkg
    increment "Failed to increment balance" to_address pkg value)

  unfoldable pub handle_burn : Time → String → String → ℤ → Program State (Unit {0})
  handle_burn now pkg from_address value = if str_eq from_address "" then pure tt else (do
    ensure_account now from_address pkg
    increment "Failed to decrement balance" from_address pkg (neg64 value))

  abbrev move_amount : String → String → String → ℤ → Program State (Unit {0})
  move_amount pkg from_address to_address value = do
    increment "Failed to decrement balance" from_address pkg (neg64 value)
    increment "Failed to increment balance" to_address pkg value

  abbrev move_from : String → String → String → ℤ → Program State (Unit {0})
  move_from pkg from_address to_address value = do
    ensure_account zero_time to_address pkg
    move_amount pkg from_address to_address value

  unfoldable pub handle_transfer : String → String → String → ℤ → Program State (Unit {0})
  handle_transfer pkg from_address to_address value = do
    ensure_account zero_time from_address pkg
    move_from pkg from_address to_address value

  unfoldable pub dispatch : Time → Event → Parsed → Program State (Unit {0})
  dispatch now e p =
      let f = to_lower e.func in
      if str_eq f "mint"
      then annotate "Failed to handle mint event"
          (handle_mint now e.pkg_path p.to_address p.num_value)
      else if str_eq f "burn"
      then annotate "Failed to handle burn event"
          (handle_burn now e.pkg_path p.from_address p.num_value)
      else if str_eq f "transfer"
      then annotate "Failed to handle transfer event"
          (handle_transfer e.pkg_path p.from_address p.to_address p.num_value)
      else pure tt

  abbrev handle_parsed : Time → Event → Option Parsed → Program State Transfer
  handle_parsed now e none = fail (wrap "Invalid 'value' attribute" bad_number)
  handle_parsed now e (some p) = do dispatch now e p; pure (transfer_of now e p)

  unfoldable pub handle_event : Time → Event → Program State Transfer
  handle_event now e = handle_parsed now e (read_attrs unparsed e.attrs)

  unfoldable pub process_events : Time → List Transfer → List Event → Program State (List Transfer)
  process_events now transfers [] = pure transfers
  process_events now transfers (e ∷ es) =
      if is_transfer_event e
      then (handle_event now e >>= λ t. process_events now (transfers ++ t ∷ []) es)
      else process_events now transfers es

  unfoldable pub process_transaction : Time → Transaction → Program State (Unit {0})
  process_transaction now tx = do
    transfers ← process_events now [] tx.response.events
    annotate "Failed to add transfers" (statement (add_transfers D now tx transfers))

  unfoldable pub parse_and_process_transactions : Time → List Transaction → Program State (Unit {0})
  parse_and_process_transactions now [] = pure tt
  parse_and_process_transactions now (tx ∷ txs) = do
    process_transaction now tx
    parse_and_process_transactions now txs

  -- What is left of `ProcessBlockWithTransactions` once `AddBlock` has stored a new block.
  unfoldable pub process_stored : Time → Block → List Transaction → Program State (Unit {0})
  process_stored now b txs = do
    annotate "failed to add transactions" (statement (add_transactions D now b.height txs))
    annotate "failed to parse and process transactions" (parse_and_process_transactions now txs)
