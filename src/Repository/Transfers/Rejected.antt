-- ===== src/Repository/Transfers/Rejected.antt =====
-- `AddTransfers` on amounts that are not positive, which the validator of ent/schema/transfer.go
-- refuses.
use gno_land_block_indexer.Prelude.{
  ◌≡◌, ◌≢◌, refl, false, Option, none, some, List, [], ◌∷◌, map, Among, inl, inr, arith,
}
use gno_land_block_indexer.Float64.{is_positive}
use gno_land_block_indexer.Model.{Time, Transaction, Transfer}
use gno_land_block_indexer.Ent.Error.{Error}
use gno_land_block_indexer.Ent.Tables.{TransferRow}
use gno_land_block_indexer.Ent.Database.{Database}
use gno_land_block_indexer.Ent.Client.{check_all, transfer_check, run_checked, save_transfers}
use gno_land_block_indexer.Ent.Post.{Fails}
use gno_land_block_indexer.Repository.Transfers.{transfer_row, transfers_added, add_transfers}

refused_row : (r : TransferRow) → is_positive r.amount ≡ false → transfer_check r ≢ none
unfolding transfer_check
refused_row r h = ground arith

check_head :
    (o : Option Error) (r : TransferRow) (rs : List TransferRow)
    → transfer_check r ≡ o
    → (o ≡ none → check_all transfer_check rs ≢ none)
    → check_all transfer_check (r ∷ rs) ≢ none
check_head none r rs e h = rw (check_all, e) (h refl)
check_head (some x) r rs e h = rw (check_all, e) cc

refused_rows :
    (now : Time) (tx : Transaction) (t : Transfer) (ts : List Transfer)
    → Among t ts
    → is_positive t.amount ≡ false
    → check_all transfer_check (map (transfer_row now tx) ts) ≢ none
unfolding transfer_row
refused_rows now tx t [] among h = absurd among
refused_rows now tx t (u ∷ us) (inl here) h =
    check_head _ (transfer_row now tx u) _ refl
      (λ passed. absurd (refused_row (transfer_row now tx u) (rw here h) passed))
refused_rows now tx t (u ∷ us) (inr there) h =
    check_head _ (transfer_row now tx u) _ refl (λ passed. refused_rows now tx t us there h)

module _ (D : Database) where
  open D use {State}

  unchanged :
      (o : Option Error) (statement : _) (s : State)
      → o ≢ none
      → Fails (transfers_added D (run_checked D o statement s)) (λ s'. s' ≡ s)
  unchanged none statement s h = absurd (h refl)
  unchanged (some e) statement s h = refl

  -- If one of the transfers has an amount that is not positive, `AddTransfers` returns an error and
  -- leaves the database as it was: none of the transfers is recorded.
  pub add_transfers-Fails :
      (now : Time) (tx : Transaction) (t : Transfer) (ts : List Transfer) (s : State)
      → Among t ts
      → is_positive t.amount ≡ false
      → Fails (add_transfers D now tx ts s) (λ s'. s' ≡ s)
  unfolding add_transfers save_transfers
  add_transfers-Fails now tx t [] s among h = absurd among
  add_transfers-Fails now tx t (u ∷ us) s among h =
      unchanged (check_all transfer_check (map (transfer_row now tx) (u ∷ us))) _ s
        (refused_rows now tx t (u ∷ us) among h)
