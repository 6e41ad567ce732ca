-- ===== src/EventProcessor/Success/Blocks.antt =====
-- The whole processing of a new block on a database that does not fail.
use gno_land_block_indexer.Prelude.{
  ◌≡◌, ◌≢◌, refl, Bool, true, false, String, none, some, List, [], ◌∷◌, ◌++◌, All, map, ℤ, eq_iff,
  arith,
}
use gno_land_block_indexer.Model.{Time, Block, Transaction}
use gno_land_block_indexer.Ent.Error.{Result, ok, err}
use gno_land_block_indexer.Ent.Action.{annotate}
use gno_land_block_indexer.Ent.Post.{Post, Returns, Post-bind, Post-annotate, Post-weaken}
use gno_land_block_indexer.Ent.Tables.{Tables, has_block, blocks_fit, transactions_fit}
use gno_land_block_indexer.Ent.Database.{Database, IsLawful, IsReliable}
use gno_land_block_indexer.Ent.Client.{
  save_block, block_check, save_transactions, transaction_check, check_all, reply_result,
}
use gno_land_block_indexer.Repository.Accounts.Answers.{accepted_only}
use gno_land_block_indexer.Repository.Blocks.{add_block, block_row, block_added}
use gno_land_block_indexer.Repository.Blocks.Laws.{with_blocks}
use gno_land_block_indexer.Repository.Transactions.{
  add_transactions, transaction_row, transactions_added,
}
use gno_land_block_indexer.Repository.Transactions.Laws.{stored}
use gno_land_block_indexer.EventProcessor.Ledger.{Ledger, apply_transactions, IsAddressed}
use gno_land_block_indexer.EventProcessor.Process.{
  process_block_with_transactions, process_new, parse_and_process_transactions,
}
use gno_land_block_indexer.EventProcessor.Process.Laws.{Shows, Any}
use gno_land_block_indexer.EventProcessor.Process.Refinement.{Processed, process_block-Processed}
use gno_land_block_indexer.EventProcessor.Process.Redelivery.{has_block-append_self}
use gno_land_block_indexer.EventProcessor.Success.{AllGood}
use gno_land_block_indexer.EventProcessor.Success.Transfers.{
  Settled, parse_and_process_transactions-Settled,
}

module _ (home : String → String) (D : Database) (L : IsLawful D) (R : IsReliable D) where
  open D use {State, tables}

  abbrev Settles : State → Type 0
  Settles s = Settled home D L R s

  block_out :
      (after : Tables) (out : Result (Unit {0}) × State)
      → Returns out (λ _ s'. tables s' ≡ after)
      → Returns (block_added out) (λ exists s'. (exists ≡ false) × (tables s' ≡ after))
  block_out after (ok _, s) h = (refl, h)
  block_out after (err e, s) h = absurd h

  add_block-Returns :
      (now : Time) (b : Block) (s : State)
      → b.hash ≢ ""
      → has_block b.height (tables s).blocks ≡ false
      → Returns (add_block D now b s) (λ exists s'.
        (exists ≡ false)
        × (tables s' ≡ with_blocks (tables s) ((tables s).blocks ++ block_row now b ∷ [])))
  unfolding add_block save_block block_check
  add_block-Returns now b s hash new =
      let out = D.insert_blocks (block_row now b ∷ []) s in
      ground (
        arith,
        eq_iff b.hash "",
        block_out (with_blocks (tables s) ((tables s).blocks ++ block_row now b ∷ []))
            (reply_result out.0, out.1)
            (accepted_only D L R (blocks_fit (block_row now b ∷ []) (tables s).blocks) _ s out
              (rw new refl) (R.insert_blocks_ne (block_row now b ∷ []) s)
              (L.insert_blocks-Write (block_row now b ∷ []) s)),
      )

  valid_transactions :
      (now : Time) (h : ℤ) (txs : List Transaction)
      → All (AllGood home) txs
      → check_all transaction_check (map (transaction_row now h) txs) ≡ none
  unfolding transaction_check transaction_row
  valid_transactions now h [] good = refl
  valid_transactions now h (tx ∷ txs) (first, rest) =
      ground (arith, eq_iff tx.hash "", first.0, valid_transactions now h txs rest)

  fit_transactions :
      (now : Time) (h : ℤ) (txs : List Transaction) (t : Tables)
      → has_block h t.blocks ≡ true
      → transactions_fit (map (transaction_row now h) txs) t ≡ true
  unfolding transaction_row
  fit_transactions now h [] t k = refl
  fit_transactions now h (tx ∷ txs) t k = ground (arith, fit_transactions now h txs t k)

  added_out :
      (Q : Unit {0} → State → Type 0) (out : Result (Unit {0}) × State)
      → Returns out Q
      → Returns (transactions_added D out) Q
  added_out Q (ok _, s) h = h
  added_out Q (err e, s) h = absurd h

  add_transactions-Settles :
      (now : Time) (h : ℤ) (txs : List Transaction) (s : State)
      → All (AllGood home) txs
      → has_block h (tables s).blocks ≡ true
      → Settles s
      → Returns (add_transactions D now h txs s) (λ _ s'. Settles s')
  unfolding add_transactions save_transactions
  add_transactions-Settles now h [] s good k ready = ready
  add_transactions-Settles now h (tx ∷ txs) s good k ready =
      let rs = map (transaction_row now h) (tx ∷ txs) in
      let out = D.insert_transactions rs s in
      rw (valid_transactions now h (tx ∷ txs) good) (
        added_out (λ _ s'. Settled home D L R s') (reply_result out.0, out.1)
          (Post-weaken _ (λ _ s'. Settled home D L R s') _ (λ _. ⊥) (reply_result out.0, out.1)
            (accepted_only D L R (transactions_fit rs (tables s)) (stored D L (tables s) rs) s out
              (fit_transactions now h (tx ∷ txs) (tables s) k) (R.insert_transactions_ne rs s)
              (L.insert_transactions-Write rs s))
            (λ _ s' e. rw e ready) (λ s' j. j)))

  process_new-Settles :
      (now : Time) (b : Block) (txs : List Transaction) (exists : Bool) (s : State)
      → All (AllGood home) txs
      → has_block b.height (tables s).blocks ≡ true
      → Settles s
      → Returns (process_new D now b txs exists s) (λ _ s'. Settles s')
  process_new-Settles now b txs true s good k ready = ready
  process_new-Settles now b txs false s good k ready =
      Post-bind (λ _ s'. Settles s') _ _
        (annotate "failed to add transactions" (add_transactions D now b.height txs))
        (λ _.
          annotate "failed to parse and process transactions"
            (parse_and_process_transactions D now txs))
        s
        (Post-annotate _ _ "failed to add transactions" (add_transactions D now b.height txs) s
          (add_transactions-Settles now b.height txs s good k ready))
        (λ _ s' j.
          Post-annotate _ _ "failed to parse and process transactions"
            (parse_and_process_transactions D now txs) s'
            (parse_and_process_transactions-Settled home D L R now txs s' good j))

  process_block-Settles :
      (now : Time) (b : Block) (txs : List Transaction) (s : State)
      → b.hash ≢ ""
      → has_block b.height (tables s).blocks ≡ false
      → All (AllGood home) txs
      → Settles s
      → Returns
          (process_block_with_transactions D now (record { block = some b; transactions = txs }) s)
          (λ _ s'. Settles s')
  unfolding process_block_with_transactions
  process_block-Settles now b txs s hash new good ready =
      let after = with_blocks (tables s) ((tables s).blocks ++ block_row now b ∷ []) in
      Post-bind (λ exists s'. (exists ≡ false) × (tables s' ≡ after)) _ _
        (annotate "failed to add block" (add_block D now b)) (process_new D now b txs) s
        (Post-annotate _ _ "failed to add block" (add_block D now b) s
          (add_block-Returns now b s hash new))
        (λ exists s' k.
          process_new-Settles now b txs exists s' good
            (rw (k.1) (has_block-append_self (block_row now b) (tables s).blocks)) (rw (k.1) ready))

  both :
      (Q : Unit {0} → State → Type 0) (P : State → Type 0) (out : Result (Unit {0}) × State)
      → Returns out (λ _ s'. P s')
      → Post out Q (Any D L)
      → Returns out (λ x s'. Q x s' × P s')
  both Q P (ok x, s) h k = (k, h)
  both Q P (err e, s) h k = absurd h

  new_block :
      (b : Block) (txs : List Transaction) (l : Ledger) (ts : Tables) (s : State)
      → has_block b.height ts.blocks ≡ false
      → Processed D L b txs l ts s
      → Shows D L (apply_transactions txs l) s
  new_block b txs l ts s new h = rw new at h

  -- On a lawful database that does not fail, whose accounts have unique addresses and are each at home
  -- in the token of their address: the processing of a new block with a hash returns no error and leaves the balances of the
  -- ledger, and the accounts as they were assumed to be, if its transactions have hashes and each of their transfer events
  -- is a mint, a burn or a transfer of a positive amount with just the addresses that it needs, at home in
  -- the event's token.
  pub process_block-Returns :
      (now : Time) (b : Block) (txs : List Transaction) (l : Ledger) (s : State)
      → b.hash ≢ ""
      → has_block b.height (tables s).blocks ≡ false
      → All (AllGood home) txs
      → All IsAddressed txs
      → Settled home D L R s
      → Shows D L l s
      → Returns
          (process_block_with_transactions D now (record { block = some b; transactions = txs }) s)
          (λ _ s'. Shows D L (apply_transactions txs l) s' × Settled home D L R s')
  process_block-Returns now b txs l s hash new good named ready shows =
      let out =
        process_block_with_transactions D now (record { block = some b; transactions = txs }) s in
      Post-weaken _ _ _ _ out
        (both (λ _ s'. Processed D L b txs l (tables s) s') (Settled home D L R) out
          (process_block-Settles now b txs s hash new good ready)
          (process_block-Processed D L now b txs l s named shows))
        (λ _ s' h. (new_block b txs l (tables s) s' new h.0, h.1)) (λ s' h. h)
