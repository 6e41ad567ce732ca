-- ===== src/EventProcessor/Statements/Alone.antt =====
-- The programs, run alone, are the functions of Handlers and Process.
use gno_land_block_indexer.Prelude.{
  ◌≡◌, refl, inl, inr, Bool, String, Option, none, some, List, [], ◌∷◌, ◌++◌, ℤ, neg64, str_eq,
  Bool-cases,
}
use gno_land_block_indexer.Text.{to_lower}
use gno_land_block_indexer.Model.{Time, Block, Event, Transaction, Transfer, zero_time, Account}
use gno_land_block_indexer.Ent.Action
use gno_land_block_indexer.Ent.Action.{reads}
use gno_land_block_indexer.Ent.Program.{Program, statement, run}
use gno_land_block_indexer.Ent.Program
use gno_land_block_indexer.Ent.Program.Laws.{Same, Same-statement, Same-annotate, Same-bind}
use gno_land_block_indexer.Ent.Database.{Database}
use gno_land_block_indexer.Repository.Accounts.{add_account, get_account, increment_account_balance}
use gno_land_block_indexer.Repository.Transactions.{add_transactions}
use gno_land_block_indexer.Repository.Transfers.{add_transfers}
use gno_land_block_indexer.EventProcessor.Attributes.{Parsed, unparsed, read_attrs}
use gno_land_block_indexer.EventProcessor.Handlers
use gno_land_block_indexer.EventProcessor.Handlers.{new_account}
use gno_land_block_indexer.EventProcessor.Process
use gno_land_block_indexer.EventProcessor.Process.{is_transfer_event, transfer_of}
use gno_land_block_indexer.EventProcessor.Statements

module _ (D : Database) where
  open D use {State}

  add_if_missing-Same :
      (now : Time) (a t : String) (found : Option Account)
      → Same (Statements.add_if_missing D now a t found) (Handlers.add_if_missing D now a t found)
  unfolding run
  add_if_missing-Same now a t none s =
      Same-annotate "Failed to add account" (statement (add_account D (new_account now a t))) _
        (Same-statement (add_account D (new_account now a t))) s
  add_if_missing-Same now a t (some acc) s = refl

  ensure_account-Same :
      (now : Time) (a t : String)
      → Same (Statements.ensure_account D now a t) (Handlers.ensure_account D now a t)
  unfolding Statements.ensure_account Handlers.ensure_account
  ensure_account-Same now a t =
      Same-bind (statement (reads (get_account D a t))) (Statements.add_if_missing D now a t)
        (reads (get_account D a t)) (Handlers.add_if_missing D now a t)
        (Same-statement (reads (get_account D a t))) (add_if_missing-Same now a t)

  increment-Same :
      (msg a t : String) (v : ℤ)
      → Same
          (Statements.increment D msg a t v)
          (Action.annotate msg (increment_account_balance D a t v))
  increment-Same msg a t v =
      Same-annotate msg (statement (increment_account_balance D a t v)) _ (Same-statement _)

  pay-Same :
      (now : Time) (msg a t : String) (v : ℤ)
      → Same
          (Program.◌>>=◌
            (Statements.ensure_account D now a t)
            (λ _. Statements.increment D msg a t v))
          (Action.◌>>=◌
            (Handlers.ensure_account D now a t)
            (λ _. Action.annotate msg (increment_account_balance D a t v)))
  pay-Same now msg a t v =
      Same-bind (Statements.ensure_account D now a t) (λ _. Statements.increment D msg a t v)
        (Handlers.ensure_account D now a t) _ (ensure_account-Same now a t)
        (λ _. increment-Same msg a t v)

  handle_mint-Same :
      (now : Time) (pkg a : String) (v : ℤ)
      → Same (Statements.handle_mint D now pkg a v) (Handlers.handle_mint D now pkg a v)
  unfolding Statements.handle_mint Handlers.handle_mint run
  handle_mint-Same now pkg a v s = elim (Bool-cases (str_eq a "")) [
    | inl empty ↦ rw empty refl
    | inr named ↦ rw named (pay-Same now "Failed to increment balance" a pkg v s)
  ]

  handle_burn-Same :
      (now : Time) (pkg a : String) (v : ℤ)
      → Same (Statements.handle_burn D now pkg a v) (Handlers.handle_burn D now pkg a v)
  unfolding Statements.handle_burn Handlers.handle_burn run
  handle_burn-Same now pkg a v s = elim (Bool-cases (str_eq a "")) [
    | inl empty ↦ rw empty refl
    | inr named ↦ rw named (pay-Same now "Failed to decrement balance" a pkg (neg64 v) s)
  ]

  move_amount-Same :
      (pkg a b : String) (v : ℤ)
      → Same (Statements.move_amount D pkg a b v) (Handlers.move_amount D pkg a b v)
  move_amount-Same pkg a b v =
      Same-bind (Statements.increment D "Failed to decrement balance" a pkg (neg64 v))
        (λ _. Statements.increment D "Failed to increment balance" b pkg v) _ _
        (increment-Same "Failed to decrement balance" a pkg (neg64 v))
        (λ _. increment-Same "Failed to increment balance" b pkg v)

  move_from-Same :
      (pkg a b : String) (v : ℤ)
      → Same (Statements.move_from D pkg a b v) (Handlers.move_from D pkg a b v)
  move_from-Same pkg a b v =
      Same-bind (Statements.ensure_account D zero_time b pkg)
        (λ _. Statements.move_amount D pkg a b v) (Handlers.ensure_account D zero_time b pkg) _
        (ensure_account-Same zero_time b pkg) (λ _. move_amount-Same pkg a b v)

  handle_transfer-Same :
      (pkg a b : String) (v : ℤ)
      → Same (Statements.handle_transfer D pkg a b v) (Handlers.handle_transfer D pkg a b v)
  unfolding Statements.handle_transfer Handlers.handle_transfer
  handle_transfer-Same pkg a b v =
      Same-bind (Statements.ensure_account D zero_time a pkg)
        (λ _. Statements.move_from D pkg a b v) (Handlers.ensure_account D zero_time a pkg) _
        (ensure_account-Same zero_time a pkg) (λ _. move_from-Same pkg a b v)

  dispatch-Same :
      (now : Time) (e : Event) (p : Parsed)
      → Same (Statements.dispatch D now e p) (Process.dispatch D now e p)
  unfolding Statements.dispatch Process.dispatch run
  dispatch-Same now e p s =
      let f = to_lower e.func in
      let t = e.pkg_path in
      let v = p.num_value in
      elim (Bool-cases (str_eq f "mint")) [
        | inl mint ↦ rw mint (
            Same-annotate "Failed to handle mint event"
              (Statements.handle_mint D now t p.to_address v) _
              (handle_mint-Same now t p.to_address v) s)
        | inr m ↦ elim (Bool-cases (str_eq f "burn")) [
          | inl burn ↦
              rw (m, burn)
                (Same-annotate "Failed to handle burn event"
                  (Statements.handle_burn D now t p.from_address v) _
                  (handle_burn-Same now t p.from_address v) s)
          | inr n ↦ elim (Bool-cases (str_eq f "transfer")) [
            | inl move ↦
                rw (m, n, move)
                  (Same-annotate "Failed to handle transfer event"
                    (Statements.handle_transfer D t p.from_address p.to_address v) _
                    (handle_transfer-Same t p.from_address p.to_address v) s)
            | inr other ↦ rw (m, n, other) refl
          ]
        ]
      ]

  handle_parsed-Same :
      (now : Time) (e : Event) (p : Option Parsed)
      → Same (Statements.handle_parsed D now e p) (Process.handle_parsed D now e p)
  unfolding run
  handle_parsed-Same now e none s = refl
  handle_parsed-Same now e (some p) s =
      Same-bind (Statements.dispatch D now e p) (λ _. Program.pure (transfer_of now e p))
        (Process.dispatch D now e p) _ (dispatch-Same now e p) (λ _ s. refl) s

  handle_event-Same :
      (now : Time) (e : Event)
      → Same (Statements.handle_event D now e) (Process.handle_event D now e)
  unfolding Statements.handle_event Process.handle_event
  handle_event-Same now e = handle_parsed-Same now e (read_attrs unparsed e.attrs)

  process_events-Same :
      (now : Time) (ts : List Transfer) (es : List Event)
      → Same (Statements.process_events D now ts es) (Process.process_events D now ts es)
  unfolding Statements.process_events Process.process_events run
  process_events-Same now ts [] s = refl
  process_events-Same now ts (e ∷ es) s = elim (Bool-cases (is_transfer_event e)) [
    | inl moves ↦ rw moves (
        Same-bind (Statements.handle_event D now e)
          (λ t. Statements.process_events D now (ts ++ t ∷ []) es) (Process.handle_event D now e) _
          (handle_event-Same now e) (λ t. process_events-Same now (ts ++ t ∷ []) es) s)
    | inr other ↦ rw other (process_events-Same now ts es s)
  ]

  process_transaction-Same :
      (now : Time) (tx : Transaction)
      → Same (Statements.process_transaction D now tx) (Process.process_transaction D now tx)
  unfolding Statements.process_transaction Process.process_transaction
  process_transaction-Same now tx =
      Same-bind (Statements.process_events D now [] tx.response.events)
        (λ ts. Program.annotate "Failed to add transfers" (statement (add_transfers D now tx ts)))
        (Process.process_events D now [] tx.response.events) _
        (process_events-Same now [] tx.response.events)
        (λ ts.
          Same-annotate "Failed to add transfers" (statement (add_transfers D now tx ts)) _
            (Same-statement _))

  parse_and_process_transactions-Same :
      (now : Time) (txs : List Transaction)
      → Same
          (Statements.parse_and_process_transactions D now txs)
          (Process.parse_and_process_transactions D now txs)
  unfolding Statements.parse_and_process_transactions Process.parse_and_process_transactions run
  parse_and_process_transactions-Same now [] s = refl
  parse_and_process_transactions-Same now (tx ∷ txs) s =
      Same-bind (Statements.process_transaction D now tx)
        (λ _. Statements.parse_and_process_transactions D now txs)
        (Process.process_transaction D now tx) _ (process_transaction-Same now tx)
        (λ _. parse_and_process_transactions-Same now txs) s

  process_stored-Same :
      (now : Time) (b : Block) (txs : List Transaction)
      → Same (Statements.process_stored D now b txs) (Process.process_new D now b txs Bool.false)
  unfolding Statements.process_stored
  process_stored-Same now b txs =
      Same-bind
        (Program.annotate "failed to add transactions"
          (statement (add_transactions D now b.height txs)))
        (λ _.
          Program.annotate "failed to parse and process transactions"
            (Statements.parse_and_process_transactions D now txs))
        _ _
        (Same-annotate "failed to add transactions"
          (statement (add_transactions D now b.height txs)) _ (Same-statement _))
        (λ _.
          Same-annotate "failed to parse and process transactions"
            (Statements.parse_and_process_transactions D now txs) _
            (parse_and_process_transactions-Same now txs))

  -- Once a block is stored, the statements of one worker with no others between them do what the rest of
  -- `ProcessBlockWithTransactions` does in one go.
  pub process_stored_alone :
      (now : Time) (b : Block) (txs : List Transaction) (s : State)
      → run (Statements.process_stored D now b txs) s ≡ Process.process_new D now b txs Bool.false s
  process_stored_alone = process_stored-Same
