-- ===== src/EventProcessor/Handlers.antt =====
-- `handleMintEvent`, `handleBurnEvent` and `handleTransferEvent`.
pub mod Laws
pub mod Accepts
pub mod Stability
use gno_land_block_indexer.Prelude.{
  Bool, String, Option, none, some, ℤ, pos, neg64, if◌then◌else◌, str_eq,
}
use gno_land_block_indexer.Model.{Time, Account, zero_time}
use gno_land_block_indexer.Ent.Action.{Action, pure, reads, ◌>>=◌, ◌>>◌, annotate}
use gno_land_block_indexer.Ent.Database.{Database}
use gno_land_block_indexer.Repository.Accounts.{add_account, get_account, increment_account_balance}

abbrev pub new_account : Time → String → String → Account
new_account now address token = record {
  address = address;
  token = token;
  amount = pos 0;
  created_at = now;
}

module _ (D : Database) where
  open D use {State}

  -- `if account == nil { AddAccount(…) }`
  abbrev pub add_if_missing : Time → String → String → Option Account → Action State (Unit {0})
  add_if_missing now address token none =
      annotate "Failed to add account" (add_account D (new_account now address token))
  add_if_missing now address token (some a) = pure tt

  -- The first half of each handler: look the account up, and create it with zero balance if it is missing.
  unfoldable pub ensure_account : Time → String → String → Action State (Unit {0})
  ensure_account now address token = do
    found ← reads (get_account D address token)
    add_if_missing now address token found

  unfoldable pub handle_mint : Time → String → String → ℤ → Action State (Unit {0})
  handle_mint now pkg to_address value = if str_eq to_address "" then pure tt else (do
    ensure_account now to_address pkg
    annotate "Failed to increment balance" (increment_account_balance D to_address pkg value))

  unfoldable pub handle_burn : Time → String → String → ℤ → Action State (Unit {0})
  handle_burn now pkg from_address value = if str_eq from_address "" then pure tt else (do
    ensure_account now from_address pkg
    annotate "Failed to decrement balance"
        (increment_account_balance D from_address pkg (neg64 value)))

  abbrev pub move_amount : String → String → String → ℤ → Action State (Unit {0})
  move_amount pkg from_address to_address value = do
    annotate "Failed to decrement balance"
        (increment_account_balance D from_address pkg (neg64 value))
    annotate "Failed to increment balance" (increment_account_balance D to_address pkg value)

  abbrev pub move_from : String → String → String → ℤ → Action State (Unit {0})
  move_from pkg from_address to_address value = do
    ensure_account zero_time to_address pkg
    move_amount pkg from_address to_address value

  -- Neither address is tested for emptiness here, and the accounts carry no creation time.
  unfoldable pub handle_transfer : String → String → String → ℤ → Action State (Unit {0})
  handle_transfer pkg from_address to_address value = do
    ensure_account zero_time from_address pkg
    move_from pkg from_address to_address value
