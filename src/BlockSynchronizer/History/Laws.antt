-- ===== src/BlockSynchronizer/History/Laws.antt =====
-- Where a restore starts: after a save, at the saved start; with no history, at 1.
use gno_land_block_indexer.Prelude.{
  ◌≡◌, true, Option, none, some, List, [], ◌∷◌, ℤ, pos, eq_ℤ, eq_ℤ_iff, take, keep, arith, refl,
}
use gno_land_block_indexer.Ent.Error.{Result, ok, err, first_node, driver, wrap}
use gno_land_block_indexer.Ent.Tables.{Tables, HistoryRow, upsert}
use gno_land_block_indexer.Ent.Client.{then_nodes, reply_result}
use gno_land_block_indexer.Ent.Client.Laws.{Applied, reply_result-Applied}
use gno_land_block_indexer.Ent.Database.{Database, IsLawful, Answers}
use gno_land_block_indexer.BlockSynchronizer.History.{
  start_of, get_not_sequential_block_num, history_saved, save_restoring_history,
}

-- The query's answer, unless the driver fails.
abbrev pub StartsAt : ℤ → Result ℤ → Type 0
StartsAt a (ok n) = n ≡ a
StartsAt a (err e) = e ≡ wrap "Error querying restoring history" driver

first-upsert :
    (r : HistoryRow) (rs : List HistoryRow)
    → take 1 (keep (λ q. eq_ℤ q.id r.id) (upsert r rs)) ≡ r ∷ []
first-upsert r [] = ground (arith, eq_ℤ_iff r.id r.id)
first-upsert r (q ∷ rs) = ground (arith, eq_ℤ_iff r.id r.id, first-upsert r rs)

module _ (D : Database) (L : IsLawful D) where
  open D use {State, tables}

  first_row :
      (o : Option (List HistoryRow)) (r : HistoryRow)
      → Answers o (r ∷ [])
      → StartsAt r.restore_range_start (start_of D (then_nodes o first_node))
  first_row none r h = refl
  first_row (some rows) r h = ground arith

  no_row :
      (o : Option (List HistoryRow))
      → Answers o []
      → StartsAt (pos 1) (start_of D (then_nodes o first_node))
  no_row none h = refl
  no_row (some rows) h = ground arith

  saved_tables :
      (t : Tables) (s : State) (out : Result (Unit {0}) × State) (s' : State)
      → Applied D true t s out
      → history_saved D out ≡ (ok tt, s')
      → tables s' ≡ t
  saved_tables t s (ok _, s2) s' h e = ground arith
  saved_tables t s (err x, s2) s' h e = cc

  -- On a lawful database, after a restore has noted its window, the next one starts at that window,
  -- not behind it, unless the driver fails.
  pub get_not_sequential_block_num-save :
      (start_block end_block limit : ℤ) (s s' : State)
      → save_restoring_history D start_block end_block s ≡ (ok tt, s')
      → StartsAt start_block (get_not_sequential_block_num D limit s')
  unfolding save_restoring_history get_not_sequential_block_num
  get_not_sequential_block_num-save start_block end_block limit s s' e =
      let row : HistoryRow = record {
        id = pos 1;
        restore_range_start = start_block;
        restore_range_end = end_block;
        being_block = pos 0;
      } in
      let after : Tables = record (tables s) { histories = upsert row (tables s).histories } in
      let same : tables s' ≡ after =
        saved_tables after s (reply_result (D.upsert_history row s).0, (D.upsert_history row s).1)
          s'
          (reply_result-Applied D true after s (D.upsert_history row s)
            (L.upsert_history-Write row s))
          e in
      first_row (D.select_history (pos 1) 1 s') row (
        rw (same, first-upsert row (tables s).histories) at (L.select_history-Answers (pos 1) 1 s'))

  pub get_not_sequential_block_num-fresh :
      (limit : ℤ) (s : State)
      → (tables s).histories ≡ []
      → StartsAt (pos 1) (get_not_sequential_block_num D limit s)
  unfolding get_not_sequential_block_num
  get_not_sequential_block_num-fresh limit s e =
      no_row (D.select_history (pos 1) 1 s) (rw e at (L.select_history-Answers (pos 1) 1 s))
