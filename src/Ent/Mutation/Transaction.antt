-- ===== src/Ent/Mutation/Transaction.antt =====
-- `TransactionMutation` of ent/mutation.go: the changes that a builder collects for one row of the table. A nil
-- pointer is `none`, the map of cleared fields a list. Edges to other tables, the old values and the
-- predicates of an update are left out, but for the block of the transaction.
pub mod Fields
use gno_land_block_indexer.Prelude.{
  Bool, true, false, not, String, Option, none, some, List, [], ◌∷◌, ◌++◌, ℤ, add64, keep, str_eq,
}
use gno_land_block_indexer.Float64.{Float64, add}
use gno_land_block_indexer.Model.{Time}
use gno_land_block_indexer.Ent.Schema.{GasFee, Message, Response}
use gno_land_block_indexer.Ent.Mutation.{added}

pub record TransactionMutation : Type 0 where
  pub id : Option ℤ
  pub index : Option ℤ
  pub add_index : Option ℤ
  pub hash : Option String
  pub success : Option Bool
  pub block_height : Option ℤ
  pub add_block_height : Option ℤ
  pub gas_wanted : Option Float64
  pub add_gas_wanted : Option Float64
  pub gas_used : Option Float64
  pub add_gas_used : Option Float64
  pub memo : Option String
  pub gas_fee : Option GasFee
  pub messages : Option (List Message)
  pub append_messages : List Message
  pub response : Option Response
  pub created_at : Option Time
  pub cleared : List String
  pub block : Option ℤ
  pub cleared_block : Bool

-- `newTransactionMutation`
abbrev pub new_mutation : TransactionMutation
new_mutation = record {
  id = none;
  index = none;
  add_index = none;
  hash = none;
  success = none;
  block_height = none;
  add_block_height = none;
  gas_wanted = none;
  add_gas_wanted = none;
  gas_used = none;
  add_gas_used = none;
  memo = none;
  gas_fee = none;
  messages = none;
  append_messages = [];
  response = none;
  created_at = none;
  cleared = [];
  block = none;
  cleared_block = false;
}

abbrev pub set_index : ℤ → TransactionMutation → TransactionMutation
set_index v m = record m { index = some v; add_index = none }

abbrev pub increase_index : ℤ → TransactionMutation → TransactionMutation
increase_index v m = record m { add_index = some (added add64 m.add_index v) }

abbrev pub reset_index : TransactionMutation → TransactionMutation
reset_index m = record m { index = none; add_index = none }

abbrev pub set_hash : String → TransactionMutation → TransactionMutation
set_hash v m = record m { hash = some v }

abbrev pub reset_hash : TransactionMutation → TransactionMutation
reset_hash m = record m { hash = none }

abbrev pub set_success : Bool → TransactionMutation → TransactionMutation
set_success v m = record m { success = some v }

abbrev pub reset_success : TransactionMutation → TransactionMutation
reset_success m = record m { success = none }

abbrev pub set_block_height : ℤ → TransactionMutation → TransactionMutation
set_block_height v m = record m { block_height = some v; add_block_height = none }

abbrev pub increase_block_height : ℤ → TransactionMutation → TransactionMutation
increase_block_height v m = record m { add_block_height = some (added add64 m.add_block_height v) }

abbrev pub reset_block_height : TransactionMutation → TransactionMutation
reset_block_height m = record m { block_height = none; add_block_height = none }

abbrev pub set_gas_wanted : Float64 → TransactionMutation → TransactionMutation
set_gas_wanted v m = record m { gas_wanted = some v; add_gas_wanted = none }

abbrev pub increase_gas_wanted : Float64 → TransactionMutation → TransactionMutation
increase_gas_wanted v m = record m { add_gas_wanted = some (added add m.add_gas_wanted v) }

abbrev pub reset_gas_wanted : TransactionMutation → TransactionMutation
reset_gas_wanted m = record m { gas_wanted = none; add_gas_wanted = none }

abbrev pub set_gas_used : Float64 → TransactionMutation → TransactionMutation
set_gas_used v m = record m { gas_used = some v; add_gas_used = none }

abbrev pub increase_gas_used : Float64 → TransactionMutation → TransactionMutation
increase_gas_used v m = record m { add_gas_used = some (added add m.add_gas_used v) }

abbrev pub reset_gas_used : TransactionMutation → TransactionMutation
reset_gas_used m = record m { gas_used = none; add_gas_used = none }

abbrev pub set_memo : String → TransactionMutation → TransactionMutation
set_memo v m = record m { memo = some v }

abbrev pub clear_memo : TransactionMutation → TransactionMutation
clear_memo m = record m { memo = none; cleared = "memo" ∷ m.cleared }

abbrev pub reset_memo : TransactionMutation → TransactionMutation
reset_memo m = record m { memo = none; cleared = keep (λ n. not (str_eq n "memo")) m.cleared }

abbrev pub set_gas_fee : GasFee → TransactionMutation → TransactionMutation
set_gas_fee v m = record m { gas_fee = some v }

abbrev pub clear_gas_fee : TransactionMutation → TransactionMutation
clear_gas_fee m = record m { gas_fee = none; cleared = "gas_fee" ∷ m.cleared }

abbrev pub reset_gas_fee : TransactionMutation → TransactionMutation
reset_gas_fee m = record m {
  gas_fee = none;
  cleared = keep (λ n. not (str_eq n "gas_fee")) m.cleared;
}

abbrev pub set_messages : List Message → TransactionMutation → TransactionMutation
set_messages v m = record m { messages = some v; append_messages = [] }

abbrev pub extend_messages : List Message → TransactionMutation → TransactionMutation
extend_messages v m = record m { append_messages = m.append_messages ++ v }

abbrev pub clear_messages : TransactionMutation → TransactionMutation
clear_messages m = record m {
  messages = none;
  append_messages = [];
  cleared = "messages" ∷ m.cleared;
}

abbrev pub reset_messages : TransactionMutation → TransactionMutation
reset_messages m = record m {
  messages = none;
  append_messages = [];
  cleared = keep (λ n. not (str_eq n "messages")) m.cleared;
}

abbrev pub set_response : Response → TransactionMutation → TransactionMutation
set_response v m = record m { response = some v }

abbrev pub clear_response : TransactionMutation → TransactionMutation
clear_response m = record m { response = none; cleared = "response" ∷ m.cleared }

abbrev pub reset_response : TransactionMutation → TransactionMutation
reset_response m = record m {
  response = none;
  cleared = keep (λ n. not (str_eq n "response")) m.cleared;
}

abbrev pub set_created_at : Time → TransactionMutation → TransactionMutation
set_created_at v m = record m { created_at = some v }

abbrev pub reset_created_at : TransactionMutation → TransactionMutation
reset_created_at m = record m { created_at = none }

abbrev pub set_block_id : ℤ → TransactionMutation → TransactionMutation
set_block_id v m = record m { block = some v }

abbrev pub clear_block : TransactionMutation → TransactionMutation
clear_block m = record m { cleared_block = true }

abbrev pub reset_block : TransactionMutation → TransactionMutation
reset_block m = record m { block = none; cleared_block = false }
