-- ===== src/Tests/Builders.antt =====
-- The builders of ent/ and their mutations.
use gno_land_block_indexer.Prelude.{◌≡◌, refl, some, none, [], ◌∷◌, pos}
use gno_land_block_indexer.Model.{Account, Transfer, zero_time}
use gno_land_block_indexer.Ent.Mutation.{float_value, assigned}
use gno_land_block_indexer.Ent.Mutation.Entities.{
  MutationOf, set_field, field, reset_field, transfer,
}
use gno_land_block_indexer.Ent.Mutation.Laws.{set_field-Restores}
use gno_land_block_indexer.Ent.Mutation.Transfer
use gno_land_block_indexer.Repository.Builders.Laws.{BuildersInsert, builders-Insert}
use gno_land_block_indexer.Tests.Data.{token, seventh_block, tx}

abbrev payment : Transfer
payment = record {
  func = "Transfer";
  from_address = "alice";
  to_address = "";
  token = token;
  amount = pos 30;
  denom = "";
  created_at = zero_time;
}

abbrev alice : Account
alice = record { address = "alice"; token = token; amount = pos 0; created_at = zero_time }

builders-Insert_example :
    BuildersInsert 1 5 alice seventh_block
      (pos 7)
      tx
      payment
      (pos 1)
      (pos 101)
      (pos 30)
      (seventh_block ∷ [])
      (tx ∷ tx ∷ [])
      (payment ∷ [])
builders-Insert_example =
    builders-Insert 1 5 alice seventh_block (pos 7) tx payment (pos 1) (pos 101) (pos 30)
      (seventh_block ∷ []) (tx ∷ tx ∷ []) (payment ∷ [])

abbrev paid : MutationOf transfer
paid = Transfer.set_hash "t0" Transfer.new_mutation

abbrev amount_set : MutationOf transfer
amount_set = Transfer.set_amount (pos 30) paid

amount_set_lem : set_field transfer "amount" (float_value (pos 30)) paid ≡ assigned amount_set
unfolding Transfer.set_field
amount_set_lem = refl

set_field-Restores_example :
    (field transfer "amount" amount_set ≡ some (float_value (pos 30)))
    × (reset_field transfer "amount" amount_set ≡ reset_field transfer "amount" paid)
    × (m'' : MutationOf transfer) × (reset_field transfer "amount" amount_set ≡ assigned m'')
    × (field transfer "amount" m'' ≡ none)
set_field-Restores_example =
    set_field-Restores transfer "amount" (float_value (pos 30)) paid amount_set amount_set_lem
