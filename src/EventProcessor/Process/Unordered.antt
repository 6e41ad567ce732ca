-- ===== src/EventProcessor/Process/Unordered.antt =====
-- The order of the rows, and the database that holds them, do not matter to the balances.
use gno_land_block_indexer.Prelude.{◌≡◌, refl, sym, ap, ◌∙◌, false, String, some, List, All}
use mathlib.Core.Quot.{Quot}
use gno_land_block_indexer.Model.{Time, Block, Transaction}
use gno_land_block_indexer.Ent.Error.{ok}
use gno_land_block_indexer.Ent.Tables.{Tables, has_block}
use gno_land_block_indexer.Ent.Database.{Database, IsLawful}
use gno_land_block_indexer.Ent.Balances.{balance, UniqueAddresses}
use gno_land_block_indexer.Ent.Accounts.{Accounts, ledger_of, ledger_of-mk}
use gno_land_block_indexer.EventProcessor.Ledger.{IsAddressed, apply_transactions}
use gno_land_block_indexer.EventProcessor.Process.{process_block_with_transactions}
use gno_land_block_indexer.EventProcessor.Process.Laws.{Shows}
use gno_land_block_indexer.EventProcessor.Process.Refinement.{process_block-Processed}

-- The accounts of tables, without their order.
abbrev pub accounts_of : (t : Tables) → UniqueAddresses t.accounts → Accounts
accounts_of t u = Quot.mk (record { rows = t.accounts; unique = u })

module _ (D : Database) (L : IsLawful D) where
  accounts-Shows :
      (q : Accounts) (s : D.State) (u : UniqueAddresses (D.tables s).accounts)
      → accounts_of (D.tables s) u ≡ q
      → Shows D L (ledger_of q) s
  accounts-Shows q s u e a t =
      sym (ledger_of-mk (record { rows = (D.tables s).accounts; unique = u }) a t)
      ∙ ap (λ p. ledger_of p a t) e

  -- A new block's processing, if it returns no error, leaves the balances that the ideal ledger has
  -- after its transactions, which starts at the accounts without their order.
  processed-Shows :
      (now : Time) (b : Block) (txs : List Transaction) (q : Accounts) (s s' : D.State)
      (u : UniqueAddresses (D.tables s).accounts)
      → All IsAddressed txs
      → accounts_of (D.tables s) u ≡ q
      → has_block b.height (D.tables s).blocks ≡ false
      → process_block_with_transactions D now (record { block = some b; transactions = txs }) s
        ≡ (ok tt, s')
      → Shows D L (apply_transactions txs (ledger_of q)) s'
  processed-Shows now b txs q s s' u named e new ran = rw new at (
      rw ran at
        (process_block-Processed D L now b txs (ledger_of q) s named (accounts-Shows q s u e)))

module _ (D : Database) (L : IsLawful D) (D' : Database) (L' : IsLawful D') where
  -- Two lawful databases hold the same accounts, whatever the order of their rows, with unique
  -- addresses: if both process the same new block, whose transfer events name their parties, and
  -- neither returns an error, then they hold the same balances afterwards.
  pub process_block_unordered :
      (now now' : Time) (b : Block) (txs : List Transaction) (s r : D.State) (s' r' : D'.State)
      (u : UniqueAddresses (D.tables s).accounts) (u' : UniqueAddresses (D'.tables s').accounts)
      → accounts_of (D.tables s) u ≡ accounts_of (D'.tables s') u'
      → All IsAddressed txs
      → has_block b.height (D.tables s).blocks ≡ false
      → has_block b.height (D'.tables s').blocks ≡ false
      → process_block_with_transactions D now (record { block = some b; transactions = txs }) s
        ≡ (ok tt, r)
      → process_block_with_transactions D' now' (record { block = some b; transactions = txs }) s'
        ≡ (ok tt, r')
      → (a t : String) → balance a t (D.tables r).accounts ≡ balance a t (D'.tables r').accounts
  process_block_unordered now now' b txs s r s' r' u u' e named new new' ran ran' a t =
      let q = accounts_of (D'.tables s') u' in
      processed-Shows D L now b txs q s r u named e new ran a t
      ∙ sym (processed-Shows D' L' now' b txs q s' r' u' named refl new' ran' a t)
