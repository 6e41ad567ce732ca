-- ===== src/Ent/Mutation/Block.antt =====
-- `BlockMutation` of ent/mutation.go: the changes that a builder collects for one row of the table. A nil
-- pointer is `none`, the map of cleared fields a list. Edges to other tables, the old values and the
-- predicates of an update are left out.
use gno_land_block_indexer.Prelude.{
  Bool, false, String, Option, none, some, List, [], ◌∷◌, ℤ, add64,
}
use gno_land_block_indexer.Model.{Time}
use gno_land_block_indexer.Ent.Mutation.{
  Value, Assigned, assigned, unknown_field, assign, held, added, listed, switch, string_kind,
  int_kind, time_kind,
}

pub record BlockMutation : Type 0 where
  pub id : Option ℤ
  pub hash : Option String
  pub time : Option Time
  pub total_txs : Option ℤ
  pub add_total_txs : Option ℤ
  pub num_txs : Option ℤ
  pub add_num_txs : Option ℤ
  pub created_at : Option Time

-- `newBlockMutation`
abbrev pub new_mutation : BlockMutation
new_mutation = record {
  id = none;
  hash = none;
  time = none;
  total_txs = none;
  add_total_txs = none;
  num_txs = none;
  add_num_txs = none;
  created_at = none;
}

abbrev pub set_id : ℤ → BlockMutation → BlockMutation
set_id v m = record m { id = some v }

abbrev pub set_hash : String → BlockMutation → BlockMutation
set_hash v m = record m { hash = some v }

abbrev pub reset_hash : BlockMutation → BlockMutation
reset_hash m = record m { hash = none }

abbrev pub set_time : Time → BlockMutation → BlockMutation
set_time v m = record m { time = some v }

abbrev pub reset_time : BlockMutation → BlockMutation
reset_time m = record m { time = none }

abbrev pub set_total_txs : ℤ → BlockMutation → BlockMutation
set_total_txs v m = record m { total_txs = some v; add_total_txs = none }

abbrev pub increase_total_txs : ℤ → BlockMutation → BlockMutation
increase_total_txs v m = record m { add_total_txs = some (added add64 m.add_total_txs v) }

abbrev pub reset_total_txs : BlockMutation → BlockMutation
reset_total_txs m = record m { total_txs = none; add_total_txs = none }

abbrev pub set_num_txs : ℤ → BlockMutation → BlockMutation
set_num_txs v m = record m { num_txs = some v; add_num_txs = none }

abbrev pub increase_num_txs : ℤ → BlockMutation → BlockMutation
increase_num_txs v m = record m { add_num_txs = some (added add64 m.add_num_txs v) }

abbrev pub reset_num_txs : BlockMutation → BlockMutation
reset_num_txs m = record m { num_txs = none; add_num_txs = none }

abbrev pub set_created_at : Time → BlockMutation → BlockMutation
set_created_at v m = record m { created_at = some v }

abbrev pub reset_created_at : BlockMutation → BlockMutation
reset_created_at m = record m { created_at = none }

-- The operations that take a field by its name; a `switch` of the source is a list of cases.

unfoldable pub set_field : String → Value → BlockMutation → Assigned BlockMutation
set_field name =
    switch name
      (("hash", λ v m. assign string_kind v (λ x. set_hash x m))
        ∷ ("time", λ v m. assign time_kind v (λ x. set_time x m))
        ∷ ("total_txs", λ v m. assign int_kind v (λ x. set_total_txs x m))
        ∷ ("num_txs", λ v m. assign int_kind v (λ x. set_num_txs x m))
        ∷ ("created_at", λ v m. assign time_kind v (λ x. set_created_at x m))
        ∷ [])
      (λ v m. unknown_field)

unfoldable pub field : String → BlockMutation → Option Value
field name =
    switch name
      (("hash", λ m. held string_kind m.hash)
        ∷ ("time", λ m. held time_kind m.time)
        ∷ ("total_txs", λ m. held int_kind m.total_txs)
        ∷ ("num_txs", λ m. held int_kind m.num_txs)
        ∷ ("created_at", λ m. held time_kind m.created_at)
        ∷ [])
      (λ m. none)

unfoldable pub add_field : String → Value → BlockMutation → Assigned BlockMutation
add_field name =
    switch name
      (("total_txs", λ v m. assign int_kind v (λ x. increase_total_txs x m))
        ∷ ("num_txs", λ v m. assign int_kind v (λ x. increase_num_txs x m))
        ∷ [])
      (λ v m. unknown_field)

unfoldable pub added_field : String → BlockMutation → Option Value
added_field name =
    switch name
      (("total_txs", λ m. held int_kind m.add_total_txs)
        ∷ ("num_txs", λ m. held int_kind m.add_num_txs)
        ∷ [])
      (λ m. none)

unfoldable pub field_cleared : String → BlockMutation → Bool
field_cleared name m = false

unfoldable pub clear_field : String → BlockMutation → Assigned BlockMutation
clear_field name m = unknown_field

unfoldable pub reset_field : String → BlockMutation → Assigned BlockMutation
reset_field name =
    switch name
      (("hash", λ m. assigned (reset_hash m))
        ∷ ("time", λ m. assigned (reset_time m))
        ∷ ("total_txs", λ m. assigned (reset_total_txs m))
        ∷ ("num_txs", λ m. assigned (reset_num_txs m))
        ∷ ("created_at", λ m. assigned (reset_created_at m))
        ∷ [])
      (λ m. unknown_field)

unfoldable pub fields : BlockMutation → List String
fields m = listed "hash" m.hash (
    listed "time" m.time (
      listed "total_txs" m.total_txs
        (listed "num_txs" m.num_txs (listed "created_at" m.created_at []))))

unfoldable pub added_fields : BlockMutation → List String
added_fields m = listed "total_txs" m.add_total_txs (listed "num_txs" m.add_num_txs [])

unfoldable pub cleared_fields : BlockMutation → List String
cleared_fields m = []
