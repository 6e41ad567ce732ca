-- ===== src/Tests/Processing.antt =====
-- The event processor on a block with a mint and a transfer.
use gno_land_block_indexer.Prelude.{
  ◌≡◌, refl, inl, inr, ◌⊎◌, Bool, true, false, String, Option, none, some, List, [], ◌∷◌, ◌++◌, ℤ,
  pos, negsuc, All, str_eq,
}
use gno_land_block_indexer.Model.{BlockWithTransactions}
use gno_land_block_indexer.Ent.Post.{Post, Returns}
use gno_land_block_indexer.Ent.Memory.{
  Server, memory, memory-IsLawful, steady, steady-IsLawful, steady-IsReliable,
}
use gno_land_block_indexer.Ent.Balances.{balance}
use gno_land_block_indexer.Ent.WellFormed.{WellFormed}
use gno_land_block_indexer.EventProcessor.Attributes.{Parsed, unparsed, read_attrs}
use gno_land_block_indexer.EventProcessor.Attributes.Laws.{read_attrs_lem}
use gno_land_block_indexer.EventProcessor.Process.Records.{recorded, process_events-recorded}
use gno_land_block_indexer.EventProcessor.Ledger.{Ledger, IsAddressed, apply_transactions}
use gno_land_block_indexer.EventProcessor.Process.{process_block_with_transactions, process_events}
use gno_land_block_indexer.EventProcessor.Process.Laws.{Any, Shows}
use gno_land_block_indexer.EventProcessor.Process.Refinement.{Processed, process_block-Processed}
use gno_land_block_indexer.EventProcessor.Process.Redelivery.{
  deliver_all, Unchanged, process_block_again,
}
use gno_land_block_indexer.EventProcessor.Process.Invariant.{process_block-WellFormed}
use gno_land_block_indexer.EventProcessor.Success.{AllGood, IsReadable, mint, move}
use gno_land_block_indexer.EventProcessor.Success.Transfers.{Settled}
use gno_land_block_indexer.EventProcessor.Success.Blocks.{process_block-Returns}
use gno_land_block_indexer.Tests.Data.{
  token, tx, seventh_block, mint_event, no_tables, no_tables-WellFormed, fresh, message, move_event,
}

abbrev pub no_money : Ledger
no_money a t = pos 0

pub addressed : All IsAddressed (tx ∷ [])
unfolding read_attrs gno_land_block_indexer.EventProcessor.Attributes.read_attr
    gno_land_block_indexer.Text.to_lower gno_land_block_indexer.Text.parse_int
    gno_land_block_indexer.Text.parse_digits gno_land_block_indexer.Text.digits_from
addressed = ((refl, (refl, tt)), tt)

pub nothing_held : Shows memory memory-IsLawful no_money fresh
unfolding balance
nothing_held a t = refl

process_block-Processed_example :
    Post
      (process_block_with_transactions memory 5 message fresh)
      (λ _ s. Processed memory memory-IsLawful seventh_block (tx ∷ []) no_money no_tables s)
      (Any memory memory-IsLawful)
process_block-Processed_example =
    process_block-Processed memory memory-IsLawful 5 seventh_block (tx ∷ []) no_money fresh
      addressed nothing_held

-- A block of another height, with no transactions.
abbrev eighth : BlockWithTransactions
eighth = record {
  block = some (record seventh_block { height = pos 8; hash = "other" });
  transactions = [];
}

process_block_again_example :
    let s' = (process_block_with_transactions memory 5 message fresh).1 in
    let s'' = deliver_all memory memory-IsLawful ((6, eighth) ∷ []) s' in
    (s'.tables ≡ no_tables)
    ⊎ Unchanged memory memory-IsLawful s'' (process_block_with_transactions memory 7 message s'')
process_block_again_example =
    process_block_again memory memory-IsLawful 5 7 seventh_block seventh_block (tx ∷ []) (tx ∷ [])
      ((6, eighth) ∷ []) fresh (process_block_with_transactions memory 5 message fresh).1
      (process_block_with_transactions memory 5 message fresh).0 refl refl

kept_half_way :
    Post
      (process_block_with_transactions memory 5 message fresh)
      (λ _ s. WellFormed s.tables)
      (λ s. WellFormed s.tables)
kept_half_way = process_block-WellFormed memory memory-IsLawful 5 message fresh no_tables-WellFormed

process_events-recorded_example :
    Post
      (process_events memory 5 [] (move_event ∷ []) fresh)
      (λ out _. out ≡ recorded 5 (move_event ∷ []))
      (λ _. Unit)
process_events-recorded_example = process_events-recorded memory 5 [] (move_event ∷ []) fresh

read_attrs_lem_example :
    read_attrs unparsed move_event.attrs
    ≡ some (record { from_address = "alice"; to_address = "bob"; num_value = pos 30 })
unfolding gno_land_block_indexer.EventProcessor.Attributes.Laws.last_text
    gno_land_block_indexer.EventProcessor.Attributes.Laws.last_number
    gno_land_block_indexer.Text.parse_int gno_land_block_indexer.Text.parse_digits
    gno_land_block_indexer.Text.digits_from
read_attrs_lem_example = read_attrs_lem unparsed move_event.attrs

abbrev pub after : Server
after = (process_block_with_transactions memory 5 message fresh).1

-- Alice is left with 70, and Bob has 30.
mint_and_move :
    (balance "alice" token after.tables.accounts ≡ pos 70)
    × (balance "bob" token after.tables.accounts ≡ pos 30)
unfolding gno_land_block_indexer.EventProcessor.Process.dispatch
    gno_land_block_indexer.EventProcessor.Process.handle_event
    gno_land_block_indexer.EventProcessor.Process.process_events
    gno_land_block_indexer.EventProcessor.Process.process_transaction
    gno_land_block_indexer.EventProcessor.Process.parse_and_process_transactions
    gno_land_block_indexer.EventProcessor.Process.process_block_with_transactions
    gno_land_block_indexer.EventProcessor.Handlers.ensure_account
    gno_land_block_indexer.EventProcessor.Handlers.handle_mint
    gno_land_block_indexer.EventProcessor.Handlers.handle_transfer
    gno_land_block_indexer.EventProcessor.Attributes.read_attr
    gno_land_block_indexer.EventProcessor.Attributes.read_attrs
    gno_land_block_indexer.Repository.Accounts.add_account
    gno_land_block_indexer.Repository.Accounts.get_account
    gno_land_block_indexer.Repository.Accounts.increment_account_balance
    gno_land_block_indexer.Repository.Blocks.add_block
    gno_land_block_indexer.Repository.Transactions.add_transactions
    gno_land_block_indexer.Repository.Transactions.transaction_row
    gno_land_block_indexer.Repository.Transfers.add_transfers
    gno_land_block_indexer.Repository.Transfers.transfer_row
    gno_land_block_indexer.Ent.Client.account_check gno_land_block_indexer.Ent.Client.block_check
    gno_land_block_indexer.Ent.Client.transaction_check
    gno_land_block_indexer.Ent.Client.transfer_check gno_land_block_indexer.Ent.Client.save_block
    gno_land_block_indexer.Ent.Client.save_transactions
    gno_land_block_indexer.Ent.Client.save_account gno_land_block_indexer.Ent.Client.save_transfers
    gno_land_block_indexer.Text.to_lower gno_land_block_indexer.Text.parse_int
    gno_land_block_indexer.Text.parse_digits gno_land_block_indexer.Text.digits_from
    gno_land_block_indexer.Float64.round_ℕ gno_land_block_indexer.Float64.round
    gno_land_block_indexer.Float64.of_int64 gno_land_block_indexer.Float64.add
    gno_land_block_indexer.Prelude.◌+ℤ◌ gno_land_block_indexer.Prelude.neg64
    gno_land_block_indexer.Ent.Balances.balance
mint_and_move = (refl, refl)

abbrev home : String → String
home a = token

alice_mint : IsReadable home mint_event
unfolding read_attrs gno_land_block_indexer.EventProcessor.Attributes.read_attr
    gno_land_block_indexer.Text.to_lower gno_land_block_indexer.Text.parse_int
    gno_land_block_indexer.Text.parse_digits gno_land_block_indexer.Text.digits_from
    gno_land_block_indexer.Float64.of_int64 gno_land_block_indexer.Float64.round
    gno_land_block_indexer.Float64.round_ℕ
alice_mint = (
  record { from_address = ""; to_address = "alice"; num_value = pos 100 },
  refl,
  cc,
  refl,
  mint refl refl (cc) refl,
)

alice_bob : IsReadable home move_event
unfolding read_attrs gno_land_block_indexer.EventProcessor.Attributes.read_attr
    gno_land_block_indexer.Text.to_lower gno_land_block_indexer.Text.parse_int
    gno_land_block_indexer.Text.parse_digits gno_land_block_indexer.Text.digits_from
    gno_land_block_indexer.Float64.of_int64 gno_land_block_indexer.Float64.round
    gno_land_block_indexer.Float64.round_ℕ
alice_bob = (
  record { from_address = "alice"; to_address = "bob"; num_value = pos 30 },
  refl,
  cc,
  refl,
  move refl (cc) (cc) refl refl,
)

good_tx : All (AllGood home) (tx ∷ [])
unfolding gno_land_block_indexer.Text.to_lower
good_tx = ((cc, (alice_mint, (alice_bob, tt))), tt)

nothing_shown : Shows steady steady-IsLawful no_money fresh
unfolding balance
nothing_shown a t = refl

process_block-Returns_example :
    Returns (process_block_with_transactions steady 5 message fresh) (λ _ s.
      Shows steady steady-IsLawful (apply_transactions (tx ∷ []) no_money) s
      × Settled home steady steady-IsLawful steady-IsReliable s)
process_block-Returns_example =
    process_block-Returns home steady steady-IsLawful steady-IsReliable 5 seventh_block (tx ∷ [])
      no_money fresh (cc) refl good_tx addressed (tt, tt) nothing_shown
