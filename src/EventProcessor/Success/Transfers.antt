-- ===== src/EventProcessor/Success/Transfers.antt =====
-- The transfers that a transaction's events leave can be saved: their accounts are there and their
-- fields are valid.
use gno_land_block_indexer.Prelude.{
  ◌≡◌, ◌≢◌, refl, inl, inr, true, String, none, List, [], ◌∷◌, ◌++◌, All, map, eq_iff, str_eq,
  arith, Bool-cases,
}
use mathlib.Core.List.{map-append}
use gno_land_block_indexer.Float64.{of_int64, is_positive}
use gno_land_block_indexer.Model.{Time, Event, Transaction, Transfer}
use gno_land_block_indexer.Ent.Error.{Result, ok, err}
use gno_land_block_indexer.Ent.Action.{annotate, pure}
use gno_land_block_indexer.Ent.Post.{Returns, Post-bind, Post-annotate, Post-weaken}
use gno_land_block_indexer.Ent.Tables.{
  Tables, AccountRow, TransferRow, has_account, transfers_fit, refers,
}
use gno_land_block_indexer.Ent.Database.{Database, IsLawful, IsReliable}
use gno_land_block_indexer.Ent.Client.{transfer_check, check_all, save_transfers, reply_result}
use gno_land_block_indexer.Ent.WellFormed.{all-append, transfers_fit_mono}
use gno_land_block_indexer.Ent.Balances.{UniqueAddresses}
use gno_land_block_indexer.Repository.Transfers.{
  transfer_row, optional, add_transfers, transfers_added,
}
use gno_land_block_indexer.Repository.Accounts.Answers.{accepted_only}
use gno_land_block_indexer.EventProcessor.Attributes.{Parsed}
use gno_land_block_indexer.EventProcessor.Process.{
  dispatch, handle_event, process_events, process_transaction, is_transfer_event, transfer_of,
  parse_and_process_transactions,
}
use gno_land_block_indexer.EventProcessor.Success.{
  IsHomed, IsFair, mint, burn, move, IsGood, AllGood,
}
use gno_land_block_indexer.EventProcessor.Success.Events.{Ready, parties, dispatch-Ready}

check_all-append :
    (rs : List TransferRow) (r : TransferRow)
    → check_all transfer_check rs ≡ none
    → transfer_check r ≡ none
    → check_all transfer_check (rs ++ r ∷ []) ≡ none
check_all-append [] r h k = rw (check_all, k) refl
check_all-append (q ∷ rs) r h k = ground (arith, check_all-append rs r)

valid_row :
    (r : TransferRow)
    → r.hash ≢ ""
    → r.func ≢ ""
    → r.token ≢ ""
    → is_positive r.amount ≡ true
    → r.denom ≢ ""
    → transfer_check r ≡ none
unfolding transfer_check
valid_row r h f t a d =
    ground (arith, eq_iff r.hash "", eq_iff r.func "", eq_iff r.token "", eq_iff r.denom "")

refers_none : (a : String) (t : Tables) → a ≡ "" → refers (optional a) t ≡ true
refers_none a t e = rw e refl

refers_some :
    (a : String) (t : Tables) → has_account a t.accounts ≡ true → refers (optional a) t ≡ true
refers_some a t h = elim (Bool-cases (str_eq a "")) [ inl y ↦ rw y refl | inr n ↦ rw n h ]

module _ (home : String → String) (D : Database) (L : IsLawful D) (R : IsReliable D) where
  open D use {State, tables}

  -- The accounts are ready for the next event.
  abbrev pub Settled : State → Type 0
  Settled s = UniqueAddresses (tables s).accounts × IsHomed home (tables s).accounts

  settled :
      (old : List AccountRow) (known : List String) (s : State)
      → Ready home D L R old known s
      → Settled s
  settled old known s h = (h.unique, h.homed)

  ready : (s : State) → Settled s → Ready home D L R (tables s).accounts [] s
  ready s h = record { unique = h.0; homed = h.1; kept = λ a k. k; known_there = tt }

  module _ (now : Time) (tx : Transaction) where
    abbrev rows : List Transfer → List TransferRow
    rows ts = map (transfer_row now tx) ts

    -- The transfers can be saved.
    abbrev CanSave : List Transfer → State → Type 0
    CanSave ts s =
        (transfers_fit (rows ts) (tables s) ≡ true) × (check_all transfer_check (rows ts) ≡ none)

    valid_transfer :
        (e : Event) (p : Parsed)
        → tx.hash ≢ ""
        → e.pkg_path ≢ ""
        → is_positive (of_int64 p.num_value) ≡ true
        → IsFair home e p
        → transfer_check (transfer_row now tx (transfer_of now e p)) ≡ none
    unfolding transfer_row
    valid_transfer e p hash token amount (mint f a b t) =
        valid_row _ hash (rw f (cc)) token amount (cc)
    valid_transfer e p hash token amount (burn f a b t) =
        valid_row _ hash (rw f (cc)) token amount (cc)
    valid_transfer e p hash token amount (move f a b t u) =
        valid_row _ hash (rw f (cc)) token amount (cc)

    fit_transfer :
        (e : Event) (p : Parsed) (old : List AccountRow) (s : State)
        → (fair : IsFair home e p) → Ready home D L R old (parties home D L R fair) s
        → transfers_fit (transfer_row now tx (transfer_of now e p) ∷ []) (tables s) ≡ true
    unfolding transfer_row
    fit_transfer e p old s (mint f a b t) h = ground (
      arith,
      refers_none p.from_address (tables s) a,
      refers_some p.to_address (tables s) h.known_there.0,
    )
    fit_transfer e p old s (burn f a b t) h = ground (
      arith,
      refers_none p.to_address (tables s) a,
      refers_some p.from_address (tables s) h.known_there.0,
    )
    fit_transfer e p old s (move f a b t u) h = ground (
      arith,
      refers_some p.to_address (tables s) h.known_there.0,
      refers_some p.from_address (tables s) h.known_there.1.0,
    )

    CanSave-append :
        (ts : List Transfer) (t : Transfer) (s s' : State) (known : List String)
        → CanSave ts s
        → Ready home D L R (tables s).accounts known s'
        → transfers_fit (transfer_row now tx t ∷ []) (tables s') ≡ true
        → transfer_check (transfer_row now tx t) ≡ none
        → CanSave (ts ++ t ∷ []) s'
    CanSave-append ts t s s' known (fit, valid) h fit_last valid_last =
        rw (map-append (transfer_row now tx) ts (t ∷ [])) (
          all-append _ (rows ts) (transfer_row now tx t ∷ [])
              (transfers_fit_mono (rows ts) (tables s) (tables s') h.kept fit) fit_last,
          check_all-append (rows ts) (transfer_row now tx t) valid valid_last,
        )

    handled :
        (e : Event) (ts : List Transfer) (s : State)
        → tx.hash ≢ ""
        → is_transfer_event e ≡ true
        → IsGood home e
        → Settled s
        → CanSave ts s
        → Returns (handle_event D now e s) (λ t s'. Settled s' × CanSave (ts ++ t ∷ []) s')
    unfolding handle_event
    handled e ts s hash moves good h k =
        let (p, read, token, amount, fair) = rw moves at good in
        let old = (tables s).accounts in
        rw read (
          Post-bind (λ _ s'. Ready home D L R old (parties home D L R fair) s') _ _
            (dispatch D now e p) (λ _. pure (transfer_of now e p)) s
            (dispatch-Ready home D L R now e p old s token fair (ready s h))
            (λ _ s' j. (
              settled old (parties home D L R fair) s' j,
              CanSave-append ts (transfer_of now e p) s s' (parties home D L R fair) k j
                  (fit_transfer e p old s' fair j) (valid_transfer e p hash token amount fair),
            )))

    process_events-CanSave :
        (es : List Event) (ts : List Transfer) (s : State)
        → tx.hash ≢ ""
        → All (IsGood home) es
        → Settled s
        → CanSave ts s
        → Returns (process_events D now ts es s) (λ out s'. Settled s' × CanSave out s')
    unfolding process_events
    process_events-CanSave [] ts s hash good h k = (h, k)
    process_events-CanSave (e ∷ es) ts s hash (first, rest) h k =
        elim (Bool-cases (is_transfer_event e)) [
          | inl moves ↦ rw moves (
              Post-bind (λ t s'. Settled s' × CanSave (ts ++ t ∷ []) s') _ _ (handle_event D now e)
                (λ t. process_events D now (ts ++ t ∷ []) es) s
                (handled e ts s hash moves first h k)
                (λ t s' j. process_events-CanSave es (ts ++ t ∷ []) s' hash rest j.0 j.1))
          | inr other ↦ rw other (process_events-CanSave es ts s hash rest h k)
        ]

    added_out :
        (Q : Unit {0} → State → Type 0) (out : Result (Unit {0}) × State)
        → Returns out Q
        → Returns (transfers_added D out) Q
    added_out Q (ok _, s) h = h
    added_out Q (err e, s) h = h

    add_transfers-Settled :
        (ts : List Transfer) (s : State)
        → Settled s
        → CanSave ts s
        → Returns (add_transfers D now tx ts s) (λ _ s'. Settled s')
    unfolding add_transfers save_transfers
    add_transfers-Settled [] s h k = h
    add_transfers-Settled (t ∷ ts) s h (fit, valid) =
        let rs = rows (t ∷ ts) in
        let out = D.insert_transfers rs s in
        rw valid (
          added_out (λ _ s'. Settled s') (reply_result out.0, out.1)
            (Post-weaken _ (λ _ s'. Settled s') _ (λ _. ⊥) (reply_result out.0, out.1)
              (accepted_only D L R (transfers_fit rs (tables s)) _ s out fit
                (R.insert_transfers_ne rs s) (L.insert_transfers-Write rs s))
              (λ _ s' e. rw e h) (λ s' j. j)))

    process_transaction-Settled :
        (s : State)
        → AllGood home tx
        → Settled s
        → Returns (process_transaction D now tx s) (λ _ s'. Settled s')
    unfolding process_transaction
    process_transaction-Settled s (hash, good) h =
        Post-bind (λ ts s'. Settled s' × CanSave ts s') _ _
          (process_events D now [] tx.response.events)
          (λ ts. annotate "Failed to add transfers" (add_transfers D now tx ts)) s
          (process_events-CanSave tx.response.events [] s hash good h (refl, refl))
          (λ ts s' k.
            Post-annotate _ _ "Failed to add transfers" (add_transfers D now tx ts) s'
              (add_transfers-Settled ts s' k.0 k.1))

  pub parse_and_process_transactions-Settled :
      (now : Time) (txs : List Transaction) (s : State)
      → All (AllGood home) txs
      → Settled s
      → Returns (parse_and_process_transactions D now txs s) (λ _ s'. Settled s')
  unfolding parse_and_process_transactions
  parse_and_process_transactions-Settled now [] s good h = h
  parse_and_process_transactions-Settled now (tx ∷ txs) s (first, rest) h =
      Post-bind (λ _ s'. Settled s') _ _ (process_transaction D now tx)
        (λ _. parse_and_process_transactions D now txs) s
        (process_transaction-Settled now tx s first h)
        (λ _ s' k. parse_and_process_transactions-Settled now txs s' rest k)
