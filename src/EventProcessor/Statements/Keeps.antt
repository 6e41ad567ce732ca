-- ===== src/EventProcessor/Statements/Keeps.antt =====
-- A predicate on the tables that each of the statements keeps is kept by every statement of the
-- programs, whatever ran before it.
use gno_land_block_indexer.Prelude.{
  inl, inr, String, Option, none, some, List, [], ◌∷◌, ◌++◌, ℤ, neg64, str_eq, Bool-cases,
}
use gno_land_block_indexer.Text.{to_lower}
use gno_land_block_indexer.Model.{Time, Block, Event, Transaction, Transfer, zero_time, Account}
use gno_land_block_indexer.Ent.Action.{Action, reads}
use gno_land_block_indexer.Ent.Error.{Result, ok, err}
use gno_land_block_indexer.Ent.Post.{Post}
use gno_land_block_indexer.Ent.Program.{Program, ret, step, statement, ◌>>=◌, annotate, pure}
use gno_land_block_indexer.Ent.Tables.{Tables}
use gno_land_block_indexer.Ent.Database.{Database, IsLawful}
use gno_land_block_indexer.Repository.Accounts.{add_account, get_account, increment_account_balance}
use gno_land_block_indexer.Repository.Transactions.{add_transactions}
use gno_land_block_indexer.Repository.Transfers.{add_transfers}
use gno_land_block_indexer.EventProcessor.Attributes.{Parsed, unparsed, read_attrs}
use gno_land_block_indexer.EventProcessor.Handlers.{new_account}
use gno_land_block_indexer.EventProcessor.Handlers.Stability.{
  IsClosed, Keeps, increment-Keeps, add_account-Keeps, reads_out,
}
use gno_land_block_indexer.EventProcessor.Process.{is_transfer_event, transfer_of}
use gno_land_block_indexer.EventProcessor.Process.Stability.{add_transfers-Keeps}
use gno_land_block_indexer.EventProcessor.Statements.{
  add_if_missing, ensure_account, increment, handle_mint, handle_burn, move_amount, move_from,
  handle_transfer, dispatch, handle_parsed, handle_event, process_events, process_transaction,
  parse_and_process_transactions, process_stored,
}

module _ (D : Database) (P : Tables → Type 0) where
  open D use {State, tables}

  -- Each statement keeps the predicate, in whatever state it runs.
  abbrev pub StepsKeep : {A : Type 0} → Program State A → Type 0
  StepsKeep (ret r) = Unit
  StepsKeep (step next rest) =
      (s : State) → (P (tables s) → P (tables (next s))) × StepsKeep (rest s)

  bind-StepsKeep :
      {A B : Type 0} (m : Program State A) (f : A → Program State B)
      → StepsKeep m
      → ((a : A) → StepsKeep (f a))
      → StepsKeep (m >>= f)
  bind-StepsKeep (ret (ok a)) f h k = k a
  bind-StepsKeep (ret (err e)) f h k = tt
  bind-StepsKeep (step next rest) f h k = λ s. ((h s).0, bind-StepsKeep (rest s) f (h s).1 k)

  annotate-StepsKeep :
      {A : Type 0} (msg : String) (m : Program State A) → StepsKeep m → StepsKeep (annotate msg m)
  annotate-StepsKeep msg (ret (ok a)) h = tt
  annotate-StepsKeep msg (ret (err e)) h = tt
  annotate-StepsKeep msg (step next rest) h =
      λ s. ((h s).0, annotate-StepsKeep msg (rest s) (h s).1)

  after :
      {A : Type 0} (out : Result A × State)
      → Post out (λ _ s'. P (tables s')) (λ s'. P (tables s'))
      → P (tables out.1)
  after (ok a, s) h = h
  after (err e, s) h = h

module _ (D : Database) (L : IsLawful D) (P : Tables → Type 0) (C : IsClosed P) where
  open D use {State, tables}

  statement-StepsKeep :
      {A : Type 0} (act : Action State A) → Keeps D L P C act → StepsKeep D P (statement act)
  statement-StepsKeep act h = λ s. (λ p. after D P (act s) (h s p), tt)

  add_if_missing-StepsKeep :
      (now : Time) (a t : String) (found : Option Account)
      → StepsKeep D P (add_if_missing D now a t found)
  add_if_missing-StepsKeep now a t none =
      annotate-StepsKeep D P "Failed to add account"
        (statement (add_account D (new_account now a t)))
        (statement-StepsKeep _ (add_account-Keeps D L P C (new_account now a t)))
  add_if_missing-StepsKeep now a t (some acc) = tt

  ensure_account-StepsKeep : (now : Time) (a t : String) → StepsKeep D P (ensure_account D now a t)
  unfolding ensure_account
  ensure_account-StepsKeep now a t =
      bind-StepsKeep D P (statement (reads (get_account D a t))) (add_if_missing D now a t)
        (statement-StepsKeep (reads (get_account D a t))
          (λ s p. reads_out D L P C (get_account D a t s) s p))
        (add_if_missing-StepsKeep now a t)

  increment-StepsKeep : (msg a t : String) (v : ℤ) → StepsKeep D P (increment D msg a t v)
  increment-StepsKeep msg a t v =
      annotate-StepsKeep D P msg (statement (increment_account_balance D a t v))
        (statement-StepsKeep _ (increment-Keeps D L P C a t v))

  pay-StepsKeep :
      (msg : String) (now : Time) (a t : String) (v : ℤ)
      → StepsKeep D P (ensure_account D now a t >>= λ _. increment D msg a t v)
  pay-StepsKeep msg now a t v =
      bind-StepsKeep D P (ensure_account D now a t) (λ _. increment D msg a t v)
        (ensure_account-StepsKeep now a t) (λ _. increment-StepsKeep msg a t v)

  pub handle_mint-StepsKeep :
      (now : Time) (pkg a : String) (v : ℤ) → StepsKeep D P (handle_mint D now pkg a v)
  unfolding handle_mint
  handle_mint-StepsKeep now pkg a v = elim (Bool-cases (str_eq a "")) [
    | inl empty ↦ rw empty tt
    | inr named ↦ rw named (pay-StepsKeep "Failed to increment balance" now a pkg v)
  ]

  handle_burn-StepsKeep :
      (now : Time) (pkg a : String) (v : ℤ) → StepsKeep D P (handle_burn D now pkg a v)
  unfolding handle_burn
  handle_burn-StepsKeep now pkg a v = elim (Bool-cases (str_eq a "")) [
    | inl empty ↦ rw empty tt
    | inr named ↦ rw named (pay-StepsKeep "Failed to decrement balance" now a pkg (neg64 v))
  ]

  move_amount-StepsKeep : (pkg a b : String) (v : ℤ) → StepsKeep D P (move_amount D pkg a b v)
  move_amount-StepsKeep pkg a b v =
      bind-StepsKeep D P (increment D "Failed to decrement balance" a pkg (neg64 v))
        (λ _. increment D "Failed to increment balance" b pkg v)
        (increment-StepsKeep "Failed to decrement balance" a pkg (neg64 v))
        (λ _. increment-StepsKeep "Failed to increment balance" b pkg v)

  handle_transfer-StepsKeep :
      (pkg a b : String) (v : ℤ) → StepsKeep D P (handle_transfer D pkg a b v)
  unfolding handle_transfer
  handle_transfer-StepsKeep pkg a b v =
      bind-StepsKeep D P (ensure_account D zero_time a pkg) (λ _. move_from D pkg a b v)
        (ensure_account-StepsKeep zero_time a pkg)
        (λ _.
          bind-StepsKeep D P (ensure_account D zero_time b pkg) (λ _. move_amount D pkg a b v)
            (ensure_account-StepsKeep zero_time b pkg) (λ _. move_amount-StepsKeep pkg a b v))

  dispatch-StepsKeep : (now : Time) (e : Event) (p : Parsed) → StepsKeep D P (dispatch D now e p)
  unfolding dispatch
  dispatch-StepsKeep now e p =
      let f = to_lower e.func in
      let t = e.pkg_path in
      let a = p.from_address in
      let b = p.to_address in
      let v = p.num_value in
      elim (Bool-cases (str_eq f "mint")) [
        | inl mint ↦ rw mint (
            annotate-StepsKeep D P "Failed to handle mint event" (handle_mint D now t b v)
              (handle_mint-StepsKeep now t b v))
        | inr m ↦ elim (Bool-cases (str_eq f "burn")) [
          | inl burn ↦
              rw (m, burn)
                (annotate-StepsKeep D P "Failed to handle burn event" (handle_burn D now t a v)
                  (handle_burn-StepsKeep now t a v))
          | inr n ↦ elim (Bool-cases (str_eq f "transfer")) [
            | inl move ↦
                rw (m, n, move)
                  (annotate-StepsKeep D P "Failed to handle transfer event"
                    (handle_transfer D t a b v) (handle_transfer-StepsKeep t a b v))
            | inr other ↦ rw (m, n, other) tt
          ]
        ]
      ]

  handle_parsed-StepsKeep :
      (now : Time) (e : Event) (p : Option Parsed) → StepsKeep D P (handle_parsed D now e p)
  handle_parsed-StepsKeep now e none = tt
  handle_parsed-StepsKeep now e (some p) =
      bind-StepsKeep D P (dispatch D now e p) (λ _. pure (transfer_of now e p))
        (dispatch-StepsKeep now e p) (λ _. tt)

  handle_event-StepsKeep : (now : Time) (e : Event) → StepsKeep D P (handle_event D now e)
  unfolding handle_event
  handle_event-StepsKeep now e = handle_parsed-StepsKeep now e (read_attrs unparsed e.attrs)

  process_events-StepsKeep :
      (now : Time) (ts : List Transfer) (es : List Event)
      → StepsKeep D P (process_events D now ts es)
  unfolding process_events
  process_events-StepsKeep now ts [] = tt
  process_events-StepsKeep now ts (e ∷ es) = elim (Bool-cases (is_transfer_event e)) [
    | inl moves ↦ rw moves (
        bind-StepsKeep D P (handle_event D now e) (λ t. process_events D now (ts ++ t ∷ []) es)
          (handle_event-StepsKeep now e) (λ t. process_events-StepsKeep now (ts ++ t ∷ []) es))
    | inr other ↦ rw other (process_events-StepsKeep now ts es)
  ]

  process_transaction-StepsKeep :
      (now : Time) (tx : Transaction) → StepsKeep D P (process_transaction D now tx)
  unfolding process_transaction
  process_transaction-StepsKeep now tx =
      bind-StepsKeep D P (process_events D now [] tx.response.events)
        (λ ts. annotate "Failed to add transfers" (statement (add_transfers D now tx ts)))
        (process_events-StepsKeep now [] tx.response.events)
        (λ ts.
          annotate-StepsKeep D P "Failed to add transfers" (statement (add_transfers D now tx ts))
            (statement-StepsKeep _ (add_transfers-Keeps D L P C now tx ts)))

  parse_and_process_transactions-StepsKeep :
      (now : Time) (txs : List Transaction)
      → StepsKeep D P (parse_and_process_transactions D now txs)
  unfolding parse_and_process_transactions
  parse_and_process_transactions-StepsKeep now [] = tt
  parse_and_process_transactions-StepsKeep now (tx ∷ txs) =
      bind-StepsKeep D P (process_transaction D now tx)
        (λ _. parse_and_process_transactions D now txs) (process_transaction-StepsKeep now tx)
        (λ _. parse_and_process_transactions-StepsKeep now txs)

  pub process_stored-StepsKeep :
      (now : Time) (b : Block) (txs : List Transaction)
      → Keeps D L P C (add_transactions D now b.height txs)
      → StepsKeep D P (process_stored D now b txs)
  unfolding process_stored
  process_stored-StepsKeep now b txs k =
      bind-StepsKeep D P
        (annotate "failed to add transactions" (statement (add_transactions D now b.height txs)))
        (λ _.
          annotate "failed to parse and process transactions"
            (parse_and_process_transactions D now txs))
        (annotate-StepsKeep D P "failed to add transactions"
          (statement (add_transactions D now b.height txs)) (statement-StepsKeep _ k))
        (λ _.
          annotate-StepsKeep D P "failed to parse and process transactions"
            (parse_and_process_transactions D now txs)
            (parse_and_process_transactions-StepsKeep now txs))
