-- ===== src/EventProcessor/Process/Stability.antt =====
-- A predicate on the tables that the statements keep is kept by the processing of events.
use gno_land_block_indexer.Prelude.{
  inl, inr, Option, none, some, List, [], ◌∷◌, ◌++◌, str_eq, Bool-cases, map,
}
use gno_land_block_indexer.Text.{to_lower}
use gno_land_block_indexer.Model.{Time, Event, Transaction, Transfer}
use gno_land_block_indexer.Ent.Action.{annotate, pure}
use gno_land_block_indexer.Ent.Post.{Post-weaken}
use gno_land_block_indexer.Ent.Tables.{Tables}
use gno_land_block_indexer.Ent.Database.{Database, IsLawful}
use gno_land_block_indexer.Repository.Transfers.{add_transfers, transfer_row}
use gno_land_block_indexer.Repository.Transfers.Laws.{add_transfers-Applied}
use gno_land_block_indexer.EventProcessor.Attributes.{Parsed, unparsed, read_attrs}
use gno_land_block_indexer.EventProcessor.Handlers.{handle_mint, handle_burn, handle_transfer}
use gno_land_block_indexer.EventProcessor.Handlers.Stability.{
  IsClosed, Keeps, bind-Keeps, annotate-Keeps, handle_mint-Keeps, handle_burn-Keeps,
  handle_transfer-Keeps,
}
use gno_land_block_indexer.EventProcessor.Process.{
  dispatch, handle_parsed, handle_event, process_events, process_transaction,
  parse_and_process_transactions, is_transfer_event, transfer_of,
}

module _ (D : Database) (L : IsLawful D) (P : Tables → Type 0) (C : IsClosed P) where
  open D use {State, tables}

  dispatch-Keeps : (now : Time) (e : Event) (p : Parsed) → Keeps D L P C (dispatch D now e p)
  unfolding dispatch
  dispatch-Keeps now e p s k =
      let f = to_lower e.func in
      let t = e.pkg_path in
      let a = p.from_address in
      let b = p.to_address in
      let v = p.num_value in
      elim (Bool-cases (str_eq f "mint")) [
        | inl mint ↦ rw mint (
            annotate-Keeps D L P C "Failed to handle mint event" (handle_mint D now t b v)
              (handle_mint-Keeps D L P C now t b v) s k)
        | inr m ↦ elim (Bool-cases (str_eq f "burn")) [
          | inl burn ↦
              rw (m, burn)
                (annotate-Keeps D L P C "Failed to handle burn event" (handle_burn D now t a v)
                  (handle_burn-Keeps D L P C now t a v) s k)
          | inr n ↦ elim (Bool-cases (str_eq f "transfer")) [
            | inl move ↦
                rw (m, n, move)
                  (annotate-Keeps D L P C "Failed to handle transfer event"
                    (handle_transfer D t a b v) (handle_transfer-Keeps D L P C t a b v) s k)
            | inr other ↦ rw (m, n, other) k
          ]
        ]
      ]

  handle_parsed-Keeps :
      (now : Time) (e : Event) (p : Option Parsed) → Keeps D L P C (handle_parsed D now e p)
  handle_parsed-Keeps now e none s k = k
  handle_parsed-Keeps now e (some p) s k =
      bind-Keeps D L P C (dispatch D now e p) (λ _. pure (transfer_of now e p))
        (dispatch-Keeps now e p) (λ _ s k. k) s k

  handle_event-Keeps : (now : Time) (e : Event) → Keeps D L P C (handle_event D now e)
  unfolding handle_event
  handle_event-Keeps now e = handle_parsed-Keeps now e (read_attrs unparsed e.attrs)

  process_events-Keeps :
      (now : Time) (ts : List Transfer) (es : List Event)
      → Keeps D L P C (process_events D now ts es)
  unfolding process_events
  process_events-Keeps now ts [] s k = k
  process_events-Keeps now ts (e ∷ es) s k = elim (Bool-cases (is_transfer_event e)) [
    | inl moves ↦ rw moves (
        bind-Keeps D L P C (handle_event D now e) (λ t. process_events D now (ts ++ t ∷ []) es)
          (handle_event-Keeps now e) (λ t. process_events-Keeps now (ts ++ t ∷ []) es) s k)
    | inr other ↦ rw other (process_events-Keeps now ts es s k)
  ]

  pub add_transfers-Keeps :
      (now : Time) (tx : Transaction) (ts : List Transfer)
      → Keeps D L P C (add_transfers D now tx ts)
  add_transfers-Keeps now tx ts s k =
      Post-weaken _ _ _ _ (add_transfers D now tx ts s) (add_transfers-Applied D L now tx ts s)
        (λ _ s' h. rw h.1 (C.add_transfers (tables s) (map (transfer_row now tx) ts) h.0 k))
        (λ s' h. rw h k)

  process_transaction-Keeps :
      (now : Time) (tx : Transaction) → Keeps D L P C (process_transaction D now tx)
  unfolding process_transaction
  process_transaction-Keeps now tx =
      bind-Keeps D L P C (process_events D now [] tx.response.events)
        (λ ts. annotate "Failed to add transfers" (add_transfers D now tx ts))
        (process_events-Keeps now [] tx.response.events)
        (λ ts.
          annotate-Keeps D L P C "Failed to add transfers" (add_transfers D now tx ts)
            (add_transfers-Keeps now tx ts))

  pub parse_and_process_transactions-Keeps :
      (now : Time) (txs : List Transaction)
      → Keeps D L P C (parse_and_process_transactions D now txs)
  unfolding parse_and_process_transactions
  parse_and_process_transactions-Keeps now [] s k = k
  parse_and_process_transactions-Keeps now (tx ∷ txs) s k =
      bind-Keeps D L P C (process_transaction D now tx)
        (λ _. parse_and_process_transactions D now txs) (process_transaction-Keeps now tx)
        (λ _. parse_and_process_transactions-Keeps now txs) s k
