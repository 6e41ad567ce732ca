-- ===== src/Ent/Create.antt =====
-- The create builders of ent/: what a builder's `Save` checks and the statement that it then runs.
-- Hooks, which the program never installs, conflict options and the node that is returned are left
-- out, and so are edges, but for the block of a transaction.
pub mod Account
pub mod Block
pub mod Transaction
pub mod Transfer
pub mod RestoreHistory
pub mod Rows
use gno_land_block_indexer.Prelude.{
  Bool, not, String, Option, none, some, List, [], ◌∷◌, if◌then◌else◌, str_eq,
}
use gno_land_block_indexer.Ent.Error.{Error, validation, Result, ok, err}
use gno_land_block_indexer.Ent.Mutation.{Value, Kind}

-- `sqlgraph.CreateSpec`: the row to insert, its columns in the order in which they are set. An edge
-- to one row of another table is a column too.
pub record CreateSpec : Type 0 where
  pub table : String
  pub id_column : String
  pub id : Option Value
  pub fields : List (String × Value)
  pub edges : List (String × Value)

-- `_spec.SetField` for a getter's value, if it exists.
abbrev pub column :
    {A : Type 0} → Kind A → String → Option A → List (String × Value) → List (String × Value)
column k name none rest = rest
column k name (some x) rest = (name, k.wrap x) ∷ rest

-- A required field that was not set is an error.
abbrev pub required : {A : Type 0} → String → Option A → Option Error → Option Error
required name none next = some (validation name)
required name (some x) next = next

-- A field that was set has to pass its validator.
abbrev pub validated : {A : Type 0} → String → (A → Bool) → Option A → Option Error → Option Error
validated name valid none next = next
validated name valid (some x) next = if valid x then next else some (validation name)

-- `NotEmpty`
abbrev pub is_named : String → Bool
is_named v = not (str_eq v "")

-- A default is set if the field is not.
abbrev unset : {A M : Type 0} → Option A → (M → M) → M → M
unset none set m = set m
unset (some x) set m = m

abbrev pub if_unset : {A M : Type 0} → (M → Option A) → (M → M) → M → M
if_unset get set m = unset (get m) set m

-- The statement runs only if the check passes.
abbrev pub checked : {S : Type 0} → Option Error → S → Result S
checked none spec = ok spec
checked (some e) spec = err e

abbrev before : CreateSpec → Result (List CreateSpec) → Result (List CreateSpec)
before spec (ok specs) = ok (spec ∷ specs)
before spec (err e) = err e

-- The mutators of a bulk: each checks its builder and adds its row before it calls the next one;
-- the last one runs the statement with all the rows.
abbrev pub chain :
    {M : Type 0} → (M → Option Error) → (M → CreateSpec) → List M → Result (List CreateSpec)
chain check create_spec [] = ok []
chain check create_spec (m ∷ ms) = elim (check m) [
  | none ↦ before (create_spec m) (chain check create_spec ms)
  | some e ↦ err e
]
