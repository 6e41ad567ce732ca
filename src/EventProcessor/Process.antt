-- ===== src/EventProcessor/Process.antt =====
-- `parseAndProcessTransactions` and `ProcessBlockWithTransactions`.
pub mod Laws
pub mod Refinement
pub mod Unordered
pub mod Stability
pub mod Invariant
pub mod Records
pub mod Redelivery
pub mod ReadBack
use gno_land_block_indexer.Prelude.{
  Bool, String, Option, none, some, List, [], ◌∷◌, ◌++◌, ℤ, if◌then◌else◌, str_eq,
}
use gno_land_block_indexer.Float64.{of_int64}
use gno_land_block_indexer.Text.{to_lower}
use gno_land_block_indexer.Model.{Time, Block, Event, Transaction, Transfer, BlockWithTransactions}
use gno_land_block_indexer.Ent.Error.{ok, bad_number, panicked, wrap}
use gno_land_block_indexer.Ent.Action.{Action, pure, fail, ◌>>=◌, ◌>>◌, annotate}
use gno_land_block_indexer.Ent.Database.{Database}
use gno_land_block_indexer.Repository.Blocks.{add_block}
use gno_land_block_indexer.Repository.Transactions.{add_transactions}
use gno_land_block_indexer.Repository.Transfers.{add_transfers}
use gno_land_block_indexer.EventProcessor.Attributes.{Parsed, unparsed, read_attrs}
use gno_land_block_indexer.EventProcessor.Handlers.{handle_mint, handle_burn, handle_transfer}

abbrev pub unit_name : String
unit_name = "ugnot"

-- What is remembered of an event, whatever its function.
abbrev pub transfer_of : Time → Event → Parsed → Transfer
transfer_of now e p = record {
  func = e.func;
  from_address = p.from_address;
  to_address = p.to_address;
  token = e.pkg_path;
  amount = of_int64 p.num_value;
  denom = unit_name;
  created_at = now;
}

abbrev pub is_transfer_event : Event → Bool
is_transfer_event e = str_eq (to_lower e.type) "transfer"

module _ (D : Database) where
  open D use {State}

  -- The `switch` over the event's function; any other is only warned of.
  unfoldable pub dispatch : Time → Event → Parsed → Action State (Unit {0})
  dispatch now e p =
      let f = to_lower e.func in
      if str_eq f "mint"
      then annotate "Failed to handle mint event"
          (handle_mint D now e.pkg_path p.to_address p.num_value)
      else if str_eq f "burn"
      then annotate "Failed to handle burn event"
          (handle_burn D now e.pkg_path p.from_address p.num_value)
      else if str_eq f "transfer"
      then annotate "Failed to handle transfer event"
          (handle_transfer D e.pkg_path p.from_address p.to_address p.num_value)
      else pure tt

  abbrev pub handle_parsed : Time → Event → Option Parsed → Action State Transfer
  handle_parsed now e none = fail (wrap "Invalid 'value' attribute" bad_number)
  handle_parsed now e (some p) = do dispatch now e p; pure (transfer_of now e p)

  unfoldable pub handle_event : Time → Event → Action State Transfer
  handle_event now e = handle_parsed now e (read_attrs unparsed e.attrs)

  -- The loop over a transaction's events; `transfers` is what was appended so far.
  unfoldable pub process_events : Time → List Transfer → List Event → Action State (List Transfer)
  process_events now transfers [] s = (ok transfers, s)
  process_events now transfers (e ∷ es) s =
      if is_transfer_event e
      then (handle_event now e >>= λ t. process_events now (transfers ++ t ∷ []) es) s
      else process_events now transfers es s

  unfoldable pub process_transaction : Time → Transaction → Action State (Unit {0})
  process_transaction now tx = do
    transfers ← process_events now [] tx.response.events
    annotate "Failed to add transfers" (add_transfers D now tx transfers)

  unfoldable pub parse_and_process_transactions : Time → List Transaction → Action State (Unit {0})
  parse_and_process_transactions now [] = pure tt
  parse_and_process_transactions now (tx ∷ txs) = do
    process_transaction now tx
    parse_and_process_transactions now txs

  abbrev pub process_new : Time → Block → List Transaction → Bool → Action State (Unit {0})
  process_new now b txs exists = if exists then pure tt else (do
    annotate "failed to add transactions" (add_transactions D now b.height txs)
    annotate "failed to parse and process transactions" (parse_and_process_transactions now txs))

  abbrev pub process_some : Time → Option Block → List Transaction → Action State (Unit {0})
  process_some now none txs = fail panicked
  process_some now (some b) txs = do
    exists ← annotate "failed to add block" (add_block D now b)
    process_new now b txs exists

  unfoldable pub process_block_with_transactions :
      Time → BlockWithTransactions → Action State (Unit {0})
  process_block_with_transactions now m = process_some now m.block m.transactions
