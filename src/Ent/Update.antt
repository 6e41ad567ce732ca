-- ===== src/Ent/Update.antt =====
-- The update builders of ent/: what `Save` checks and the changes of the statement that it then
-- runs. The rows that it runs on are given by its predicates, which ent/ passes on.
pub mod Account
pub mod Block
pub mod Transaction
pub mod Transfer
pub mod RestoreHistory
use gno_land_block_indexer.Prelude.{
  Bool, true, false, String, Option, none, some, List, [], ◌∷◌, ℤ, if◌then◌else◌,
}
use gno_land_block_indexer.Ent.Error.{Error, validation, Result, ok, err}
use gno_land_block_indexer.Ent.Schema.{Message}
use gno_land_block_indexer.Ent.Mutation.{Value, Kind}

-- A change of `sqlgraph.UpdateSpec`: SetField, AddField, ClearField, the modifier that appends to a
-- JSON column, and the edge to a block, which is a column of the transaction.
pub data Change : Type 0 where
  column_set column_added : String → Value → Change
  column_cleared edge_cleared : String → Change
  column_appended : String → List Message → Change
  edge_added : String → ℤ → Change

abbrev pub set_change : {A : Type 0} → Kind A → String → Option A → List Change → List Change
set_change k name none rest = rest
set_change k name (some x) rest = column_set name (k.wrap x) ∷ rest

abbrev pub add_change : {A : Type 0} → Kind A → String → Option A → List Change → List Change
add_change k name none rest = rest
add_change k name (some x) rest = column_added name (k.wrap x) ∷ rest

abbrev pub edge_change : String → Option ℤ → List Change → List Change
edge_change name none rest = rest
edge_change name (some id) rest = edge_added name id ∷ rest

abbrev pub only_if : Bool → Change → List Change → List Change
only_if b c rest = if b then c ∷ rest else rest

abbrev pub is_empty : List Message → Bool
is_empty [] = true
is_empty (x ∷ xs) = false

-- A builder of one row needs its key; the columns that it reads back are left out.
abbrev pub of_row : Option Error → Option Value → List Change → Result (Value × List Change)
of_row (some e) key changes = err e
of_row none none changes = err (validation "id")
of_row none (some k) changes = ok (k, changes)
