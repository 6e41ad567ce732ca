-- ===== src/EventProcessor/Workers/Race.antt =====
-- Two workers that mint to the same new address at once: both look the account up before either has
-- created it.
use gno_land_block_indexer.Prelude.{◌≡◌, String, ℤ}
use gno_land_block_indexer.Model.{Time}
use gno_land_block_indexer.Ent.Error.{Error, err}
use gno_land_block_indexer.Ent.Program.{Program, ret, statement, ◌>>=◌, annotate}
use gno_land_block_indexer.Ent.Database.{Database, IsLawful, IsReliable}
use gno_land_block_indexer.Repository.Accounts.{add_account}
use gno_land_block_indexer.EventProcessor.Handlers.{new_account}
use gno_land_block_indexer.EventProcessor.Statements.{increment}
use gno_land_block_indexer.EventProcessor.Workers.Others.{Others}

module _ (D : Database) (L : IsLawful D) (R : IsReliable D) where
  open D use {State, tables}

  -- What is left of a mint once the lookup has found no account.
  abbrev add_then : Time → String → String → ℤ → Program State (Unit {0})
  add_then now pkg a v =
      annotate "Failed to add account" (statement (add_account D (new_account now a pkg))) >>= λ _.
      increment D "Failed to increment balance" a pkg v

  -- The program has returned an error, and the tables are as they were.
  abbrev pub HasFailed : State → Program State (Unit {0}) × State → Type 0
  HasFailed s out = ((e : Error) × (out.0 ≡ ret (err e))) × (tables out.1 ≡ tables s)
