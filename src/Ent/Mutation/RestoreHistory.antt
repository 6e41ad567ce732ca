-- ===== src/Ent/Mutation/RestoreHistory.antt =====
-- `RestoreHistoryMutation` of ent/mutation.go: the changes that a builder collects for one row of the table. A nil
-- pointer is `none`, the map of cleared fields a list. Edges to other tables, the old values and the
-- predicates of an update are left out.
use gno_land_block_indexer.Prelude.{
  Bool, false, String, Option, none, some, List, [], ◌∷◌, ℤ, add64,
}
use gno_land_block_indexer.Ent.Mutation.{
  Value, Assigned, assigned, unknown_field, assign, held, added, listed, switch, int_kind,
}

pub record RestoreHistoryMutation : Type 0 where
  pub id : Option ℤ
  pub restore_range_start : Option ℤ
  pub add_restore_range_start : Option ℤ
  pub restore_range_end : Option ℤ
  pub add_restore_range_end : Option ℤ
  pub being_block : Option ℤ
  pub add_being_block : Option ℤ

-- `newRestoreHistoryMutation`
abbrev pub new_mutation : RestoreHistoryMutation
new_mutation = record {
  id = none;
  restore_range_start = none;
  add_restore_range_start = none;
  restore_range_end = none;
  add_restore_range_end = none;
  being_block = none;
  add_being_block = none;
}

abbrev pub set_id : ℤ → RestoreHistoryMutation → RestoreHistoryMutation
set_id v m = record m { id = some v }

abbrev pub set_restore_range_start : ℤ → RestoreHistoryMutation → RestoreHistoryMutation
set_restore_range_start v m = record m {
  restore_range_start = some v;
  add_restore_range_start = none;
}

abbrev pub increase_restore_range_start : ℤ → RestoreHistoryMutation → RestoreHistoryMutation
increase_restore_range_start v m = record m {
  add_restore_range_start = some (added add64 m.add_restore_range_start v);
}

abbrev pub reset_restore_range_start : RestoreHistoryMutation → RestoreHistoryMutation
reset_restore_range_start m = record m {
  restore_range_start = none;
  add_restore_range_start = none;
}

abbrev pub set_restore_range_end : ℤ → RestoreHistoryMutation → RestoreHistoryMutation
set_restore_range_end v m = record m { restore_range_end = some v; add_restore_range_end = none }

abbrev pub increase_restore_range_end : ℤ → RestoreHistoryMutation → RestoreHistoryMutation
increase_restore_range_end v m = record m {
  add_restore_range_end = some (added add64 m.add_restore_range_end v);
}

abbrev pub reset_restore_range_end : RestoreHistoryMutation → RestoreHistoryMutation
reset_restore_range_end m = record m { restore_range_end = none; add_restore_range_end = none }

abbrev pub set_being_block : ℤ → RestoreHistoryMutation → RestoreHistoryMutation
set_being_block v m = record m { being_block = some v; add_being_block = none }

abbrev pub increase_being_block : ℤ → RestoreHistoryMutation → RestoreHistoryMutation
increase_being_block v m = record m { add_being_block = some (added add64 m.add_being_block v) }

abbrev pub reset_being_block : RestoreHistoryMutation → RestoreHistoryMutation
reset_being_block m = record m { being_block = none; add_being_block = none }

-- The operations that take a field by its name; a `switch` of the source is a list of cases.

unfoldable pub set_field : String → Value → RestoreHistoryMutation → Assigned RestoreHistoryMutation
set_field name =
    switch name
      (("restore_range_start", λ v m. assign int_kind v (λ x. set_restore_range_start x m))
        ∷ ("restore_range_end", λ v m. assign int_kind v (λ x. set_restore_range_end x m))
        ∷ ("being_block", λ v m. assign int_kind v (λ x. set_being_block x m))
        ∷ [])
      (λ v m. unknown_field)

unfoldable pub field : String → RestoreHistoryMutation → Option Value
field name =
    switch name
      (("restore_range_start", λ m. held int_kind m.restore_range_start)
        ∷ ("restore_range_end", λ m. held int_kind m.restore_range_end)
        ∷ ("being_block", λ m. held int_kind m.being_block)
        ∷ [])
      (λ m. none)

unfoldable pub add_field : String → Value → RestoreHistoryMutation → Assigned RestoreHistoryMutation
add_field name =
    switch name
      (("restore_range_start", λ v m. assign int_kind v (λ x. increase_restore_range_start x m))
        ∷ ("restore_range_end", λ v m. assign int_kind v (λ x. increase_restore_range_end x m))
        ∷ ("being_block", λ v m. assign int_kind v (λ x. increase_being_block x m))
        ∷ [])
      (λ v m. unknown_field)

unfoldable pub added_field : String → RestoreHistoryMutation → Option Value
added_field name =
    switch name
      (("restore_range_start", λ m. held int_kind m.add_restore_range_start)
        ∷ ("restore_range_end", λ m. held int_kind m.add_restore_range_end)
        ∷ ("being_block", λ m. held int_kind m.add_being_block)
        ∷ [])
      (λ m. none)

unfoldable pub field_cleared : String → RestoreHistoryMutation → Bool
field_cleared name m = false

unfoldable pub clear_field : String → RestoreHistoryMutation → Assigned RestoreHistoryMutation
clear_field name m = unknown_field

unfoldable pub reset_field : String → RestoreHistoryMutation → Assigned RestoreHistoryMutation
reset_field name =
    switch name
      (("restore_range_start", λ m. assigned (reset_restore_range_start m))
        ∷ ("restore_range_end", λ m. assigned (reset_restore_range_end m))
        ∷ ("being_block", λ m. assigned (reset_being_block m))
        ∷ [])
      (λ m. unknown_field)

unfoldable pub fields : RestoreHistoryMutation → List String
fields m =
    listed "restore_range_start" m.restore_range_start
      (listed "restore_range_end" m.restore_range_end (listed "being_block" m.being_block []))

unfoldable pub added_fields : RestoreHistoryMutation → List String
added_fields m =
    listed "restore_range_start" m.add_restore_range_start (
      listed "restore_range_end" m.add_restore_range_end
        (listed "being_block" m.add_being_block []))

unfoldable pub cleared_fields : RestoreHistoryMutation → List String
cleared_fields m = []
