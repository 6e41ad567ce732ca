-- ===== src/EventProcessor/Process/Refinement.antt =====
-- `ProcessBlockWithTransactions` against the ideal ledger, event by event.
use gno_land_block_indexer.Prelude.{
  ◌≡◌, refl, inl, inr, Bool, true, false, Option, none, some, List, [], ◌∷◌, ◌++◌, All,
  if◌then◌else◌, Bool-cases,
}
use gno_land_block_indexer.Model.{Time, Block, Event, Transaction, Transfer}
use gno_land_block_indexer.Ent.Action.{annotate, pure}
use gno_land_block_indexer.Ent.Post.{Post, Post-bind, Post-annotate, Post-weaken}
use gno_land_block_indexer.Ent.Tables.{Tables, has_block}
use gno_land_block_indexer.Ent.Database.{Database, IsLawful}
use gno_land_block_indexer.Repository.Blocks.{add_block, block_row}
use gno_land_block_indexer.Repository.Blocks.Laws.{Added, add_block-Added}
use gno_land_block_indexer.Repository.Transactions.{add_transactions}
use gno_land_block_indexer.Repository.Transactions.Laws.{add_transactions-AllOrNone}
use gno_land_block_indexer.Repository.Transfers.{add_transfers}
use gno_land_block_indexer.Repository.Transfers.Laws.{add_transfers-Applied}
use gno_land_block_indexer.EventProcessor.Attributes.{Parsed, unparsed, read_attrs}
use gno_land_block_indexer.EventProcessor.Ledger.{
  Ledger, apply_parsed, apply_read, apply_event, apply_events, apply_transactions, read_names,
  is_addressed, IsAddressed,
}
use gno_land_block_indexer.EventProcessor.Process.{
  dispatch, handle_parsed, handle_event, process_events, process_transaction,
  parse_and_process_transactions, process_new, process_block_with_transactions, is_transfer_event,
  transfer_of,
}
use gno_land_block_indexer.EventProcessor.Process.Laws.{Agrees, Shows, Any, dispatch-Shows}

module _ (D : Database) (L : IsLawful D) where
  open D use {State, tables}

  handle_parsed-Shows :
      (now : Time) (e : Event) (p : Option Parsed) (l : Ledger) (s : State)
      → read_names e p ≡ true
      → Shows D L l s
      → Post (handle_parsed D now e p s) (λ _ s'. Shows D L (apply_read e p l) s') (Any D L)
  handle_parsed-Shows now e none l s named h = tt
  handle_parsed-Shows now e (some p) l s named h =
      Post-bind (λ _ s'. Shows D L (apply_parsed e p l) s') _ _ (dispatch D now e p)
        (λ _. pure (transfer_of now e p)) s (dispatch-Shows D L now e p l s named h) (λ _ s' k. k)

  -- An addressed event moves the balances as the ledger says.
  handle_event-Shows :
      (now : Time) (e : Event) (l : Ledger) (s : State)
      → is_transfer_event e ≡ true
      → is_addressed e ≡ true
      → Shows D L l s
      → Post (handle_event D now e s) (λ _ s'. Shows D L (apply_event e l) s') (Any D L)
  unfolding handle_event
  handle_event-Shows now e l s moves named h =
      rw moves (handle_parsed-Shows now e (read_attrs unparsed e.attrs) l s (rw moves at named) h)

  process_events-Shows :
      (now : Time) (transfers : List Transfer) (es : List Event) (l : Ledger) (s : State)
      → All (λ e. is_addressed e ≡ true) es
      → Shows D L l s
      → Post
          (process_events D now transfers es s)
          (λ _ s'. Shows D L (apply_events es l) s')
          (Any D L)
  unfolding process_events apply_events
  process_events-Shows now transfers [] l s named h = h
  process_events-Shows now transfers (e ∷ es) l s (named, rest) h =
      elim (Bool-cases (is_transfer_event e)) [
        | inl moves ↦ rw moves (
            Post-bind (λ _ s'. Shows D L (apply_read e (read_attrs unparsed e.attrs) l) s') _ _
              (handle_event D now e) (λ t. process_events D now (transfers ++ t ∷ []) es) s
              (rw moves at (handle_event-Shows now e l s moves named h))
              (λ t s' k. process_events-Shows now (transfers ++ t ∷ []) es _ s' rest k))
        | inr other ↦ rw other (process_events-Shows now transfers es l s rest h)
      ]

  add_transfers-Shows :
      (now : Time) (tx : Transaction) (ts : List Transfer) (l : Ledger) (s : State)
      → Shows D L l s
      → Post
          (annotate "Failed to add transfers" (add_transfers D now tx ts) s)
          (λ _ s'. Shows D L l s')
          (Any D L)
  add_transfers-Shows now tx ts l s h =
      Post-weaken _ _ _ _ (annotate "Failed to add transfers" (add_transfers D now tx ts) s)
        (Post-annotate _ _ "Failed to add transfers" (add_transfers D now tx ts) s
          (add_transfers-Applied D L now tx ts s))
        (λ _ s' k. rw k.1 h) (λ s' k. tt)

  process_transaction-Shows :
      (now : Time) (tx : Transaction) (l : Ledger) (s : State)
      → IsAddressed tx
      → Shows D L l s
      → Post
          (process_transaction D now tx s)
          (λ _ s'. Shows D L (apply_events tx.response.events l) s')
          (Any D L)
  unfolding process_transaction
  process_transaction-Shows now tx l s named h =
      Post-bind (λ _ s'. Shows D L (apply_events tx.response.events l) s') _ _
        (process_events D now [] tx.response.events)
        (λ ts. annotate "Failed to add transfers" (add_transfers D now tx ts)) s
        (process_events-Shows now [] tx.response.events l s named h)
        (λ ts s' k. add_transfers-Shows now tx ts _ s' k)

  -- Transactions whose events name their parties leave the balances of the ledger, if there is no error.
  pub parse_and_process_transactions-Shows :
      (now : Time) (txs : List Transaction) (l : Ledger) (s : State)
      → All IsAddressed txs
      → Shows D L l s
      → Post
          (parse_and_process_transactions D now txs s)
          (λ _ s'. Shows D L (apply_transactions txs l) s')
          (Any D L)
  unfolding parse_and_process_transactions apply_transactions
  parse_and_process_transactions-Shows now [] l s named h = h
  parse_and_process_transactions-Shows now (tx ∷ txs) l s (named, rest) h =
      Post-bind (λ _ s'. Shows D L (apply_events tx.response.events l) s') _ _
        (process_transaction D now tx) (λ _. parse_and_process_transactions D now txs) s
        (process_transaction-Shows now tx l s named h)
        (λ _ s' k. parse_and_process_transactions-Shows now txs _ s' rest k)

  -- What a delivery of a block does to the balances: of a stored block nothing, of a new one what
  -- the ledger says.
  abbrev pub Processed : Block → List Transaction → Ledger → Tables → State → Type 0
  Processed b txs l ts s =
      if has_block b.height ts.blocks then tables s ≡ ts else Shows D L (apply_transactions txs l) s

  add_transactions-Shows :
      (now : Time) (b : Block) (txs : List Transaction) (l : Ledger) (s : State)
      → Shows D L l s
      → Post
          (annotate "failed to add transactions" (add_transactions D now b.height txs) s)
          (λ _ s'. Shows D L l s')
          (Any D L)
  add_transactions-Shows now b txs l s h =
      Post-weaken _ _ _ _
        (annotate "failed to add transactions" (add_transactions D now b.height txs) s)
        (Post-annotate _ _ "failed to add transactions" (add_transactions D now b.height txs) s
          (add_transactions-AllOrNone D L now b.height txs s))
        (λ _ s' k. elim k [ inl (fits, added) ↦ rw added h | inr same ↦ rw same h ]) (λ s' k. tt)

  process_new-Shows :
      (now : Time) (b : Block) (txs : List Transaction) (exists : Bool) (l : Ledger) (ts : Tables)
      (s : State)
      → All IsAddressed txs
      → Agrees ts.accounts l
      → has_block b.height ts.blocks ≡ exists
      → tables s ≡ (if exists then ts else record ts { blocks = (tables s).blocks })
      → Post (process_new D now b txs exists s) (λ _ s'. Processed b txs l ts s') (Any D L)
  process_new-Shows now b txs true l ts s named h e k = rw e k
  process_new-Shows now b txs false l ts s named h e k = rw e (
      Post-bind (λ _ s'. Shows D L l s') (λ _ s'. Shows D L (apply_transactions txs l) s') (Any D L)
        (annotate "failed to add transactions" (add_transactions D now b.height txs))
        (λ _.
          annotate "failed to parse and process transactions"
            (parse_and_process_transactions D now txs))
        s (add_transactions-Shows now b txs l s (rw k h))
        (λ _ s' j.
          Post-annotate _ _ "failed to parse and process transactions"
            (parse_and_process_transactions D now txs) s'
            (parse_and_process_transactions-Shows now txs l s' named j)))

  after_add_block :
      (now : Time) (b : Block) (txs : List Transaction) (exists : Bool) (l : Ledger) (ts : Tables)
      (s : State)
      → All IsAddressed txs
      → Agrees ts.accounts l
      → Added D L ts (block_row now b) exists s
      → Post (process_new D now b txs exists s) (λ _ s'. Processed b txs l ts s') (Any D L)
  after_add_block now b txs true l ts s named h (e, k) =
      process_new-Shows now b txs true l ts s named h e k
  after_add_block now b txs false l ts s named h (e, k) =
      process_new-Shows now b txs false l ts s named h e (rw k refl)

  -- On a lawful database that shows a ledger: if the processing of a block whose transfer events name their parties returns no error, then the
  -- balances are those that the ledger has after its transactions, or the block was stored before
  -- and nothing changed.
  pub process_block-Processed :
      (now : Time) (b : Block) (txs : List Transaction) (l : Ledger) (s : State)
      → All IsAddressed txs
      → Shows D L l s
      → Post
          (process_block_with_transactions D now (record { block = some b; transactions = txs }) s)
          (λ _ s'. Processed b txs l (tables s) s')
          (Any D L)
  unfolding process_block_with_transactions
  process_block-Processed now b txs l s named h =
      Post-bind (λ exists s'. Added D L (tables s) (block_row now b) exists s') _ _
        (annotate "failed to add block" (add_block D now b)) (process_new D now b txs) s
        (Post-weaken _ _ _ _ (annotate "failed to add block" (add_block D now b) s)
          (Post-annotate _ _ "failed to add block" (add_block D now b) s
            (add_block-Added D L now b s))
          (λ _ s' k. k) (λ s' k. tt))
        (λ exists s' k. after_add_block now b txs exists l (tables s) s' named h k)
