-- ===== src/Ent/Mutation/Laws.antt =====
-- What SetField, Field and ResetField of the five mutations promise each other.
use gno_land_block_indexer.Prelude.{
  ◌≡◌, refl, String, Option, none, some, List, [], ◌∷◌, str_eq, arith, Bool-cases, Option-cases,
  inl, inr,
}
use gno_land_block_indexer.Ent.Mutation.{
  Value, Kind, Assigned, assigned, assign, held, switch, string_kind, int_kind, float_kind,
  bool_kind, time_kind, gas_fee_kind, messages_kind, response_kind,
}
use gno_land_block_indexer.Ent.Mutation.Entities.{
  Entity, MutationOf, set_field, field, reset_field, account, block, transaction, transfer,
  restore_history,
}
use gno_land_block_indexer.Ent.Mutation.Account
use gno_land_block_indexer.Ent.Mutation.Block
use gno_land_block_indexer.Ent.Mutation.Transaction
use gno_land_block_indexer.Ent.Mutation.Transfer
use gno_land_block_indexer.Ent.Mutation.RestoreHistory
use gno_land_block_indexer.Ent.Mutation.Transaction.Fields

-- A field that was set is read back; a reset takes it away, and since it leaves what a reset without
-- the setting leaves, nothing else was set.
abbrev Restores :
    {M : Type 0} → (Value → M → Assigned M) → (M → Option Value) → (M → Assigned M) → Type 0
Restores {M} set get reset =
    (v : Value) (m m' : M)
    → set v m ≡ assigned m'
    → (get m' ≡ some v)
      × (reset m' ≡ reset m)
      × (m'' : M) × (reset m' ≡ assigned m'')
      × (get m'' ≡ none)

module _ {A M : Type 0} where
  given-Restores :
      (k : Kind A) (set : A → M → M) (get : M → Option A) (reset : M → M)
      → ((x : A) (m : M) → get (set x m) ≡ some x)
      → ((m : M) → get (reset m) ≡ none)
      → ((x : A) (m : M) → reset (set x m) ≡ reset m)
      → Restores (λ v m. assign k v (λ x. set x m)) (λ m. held k (get m)) (λ m. assigned (reset m))
  given-Restores k set get reset get-set get-reset reset-set v m m' h =
      elim (Option-cases (k.unwrap v)) [
        | inl e ↦ ground (arith, e, h)
        | inr (x, e) ↦ (
          grind (arith, get-set, k.wrap-unwrap v x e),
          grind (arith, reset-set x m),
          reset m',
          refl,
          ground (arith, get-reset m'),
        )
      ]

module _ {A B C : Type 0} (P : A → B → C → Type 0) where
  -- The lists have the same names in the same order, and their cases fit together.
  data Matching : List (String × A) → List (String × B) → List (String × C) → Type 0 where
    done : Matching [] [] []
    also :
        {n : String} {a : A} {b : B} {c : C} {xs : List (String × A)} {ys : List (String × B)}
        {zs : List (String × C)}
        → P a b c
        → Matching xs ys zs
        → Matching ((n, a) ∷ xs) ((n, b) ∷ ys) ((n, c) ∷ zs)

  switch-Matching :
      (name : String) {xs : List (String × A)} {ys : List (String × B)} {zs : List (String × C)}
      {a : A} {b : B} {c : C}
      → Matching xs ys zs
      → P a b c
      → P (switch name xs a) (switch name ys b) (switch name zs c)
  switch-Matching name done d = d
  switch-Matching name (also {n} p h) d = elim (Bool-cases (str_eq name n)) [
    | inl e ↦ rw e p
    | inr e ↦ rw e (switch-Matching name h d)
  ]

account-Restores :
    (name : String)
    → Restores (Account.set_field name) (Account.field name) (Account.reset_field name)
unfolding Account.set_field Account.field Account.reset_field
account-Restores name =
    switch-Matching Restores name
      (also
        (given-Restores string_kind Account.set_token (λ m. m.token) Account.reset_token
          (λ x m. refl) (λ m. refl) (λ x m. refl))
        (also
          (given-Restores float_kind Account.set_amount (λ m. m.amount) Account.reset_amount
            (λ x m. refl) (λ m. refl) (λ x m. refl))
          (done)))
      (λ v m m' h. ground (arith, h))

block-Restores :
    (name : String) → Restores (Block.set_field name) (Block.field name) (Block.reset_field name)
unfolding Block.set_field Block.field Block.reset_field
block-Restores name =
    switch-Matching Restores name
      (also
        (given-Restores string_kind Block.set_hash (λ m. m.hash) Block.reset_hash (λ x m. refl)
          (λ m. refl) (λ x m. refl))
        (also
          (given-Restores time_kind Block.set_time (λ m. m.time) Block.reset_time (λ x m. refl)
            (λ m. refl) (λ x m. refl))
          (also
            (given-Restores int_kind Block.set_total_txs (λ m. m.total_txs) Block.reset_total_txs
              (λ x m. refl) (λ m. refl) (λ x m. refl))
            (also
              (given-Restores int_kind Block.set_num_txs (λ m. m.num_txs) Block.reset_num_txs
                (λ x m. refl) (λ m. refl) (λ x m. refl))
              (also
                (given-Restores time_kind Block.set_created_at (λ m. m.created_at)
                  Block.reset_created_at (λ x m. refl) (λ m. refl) (λ x m. refl))
                (done))))))
      (λ v m m' h. ground (arith, h))

transaction-Restores :
    (name : String) → Restores (Fields.set_field name) (Fields.field name) (Fields.reset_field name)
unfolding Fields.set_field Fields.field Fields.reset_field
transaction-Restores name =
    switch-Matching Restores name
      (also
        (given-Restores int_kind Transaction.set_index (λ m. m.index) Transaction.reset_index
          (λ x m. refl) (λ m. refl) (λ x m. refl))
        (also
          (given-Restores string_kind Transaction.set_hash (λ m. m.hash) Transaction.reset_hash
            (λ x m. refl) (λ m. refl) (λ x m. refl))
          (also
            (given-Restores bool_kind Transaction.set_success (λ m. m.success)
              Transaction.reset_success (λ x m. refl) (λ m. refl) (λ x m. refl))
            (also
              (given-Restores int_kind Transaction.set_block_height (λ m. m.block_height)
                Transaction.reset_block_height (λ x m. refl) (λ m. refl) (λ x m. refl))
              (also
                (given-Restores float_kind Transaction.set_gas_wanted (λ m. m.gas_wanted)
                  Transaction.reset_gas_wanted (λ x m. refl) (λ m. refl) (λ x m. refl))
                (also
                  (given-Restores float_kind Transaction.set_gas_used (λ m. m.gas_used)
                    Transaction.reset_gas_used (λ x m. refl) (λ m. refl) (λ x m. refl))
                  (also
                    (given-Restores string_kind Transaction.set_memo (λ m. m.memo)
                      Transaction.reset_memo (λ x m. refl) (λ m. refl) (λ x m. refl))
                    (also
                      (given-Restores gas_fee_kind Transaction.set_gas_fee (λ m. m.gas_fee)
                        Transaction.reset_gas_fee (λ x m. refl) (λ m. refl) (λ x m. refl))
                      (also
                        (given-Restores messages_kind Transaction.set_messages (λ m. m.messages)
                          Transaction.reset_messages (λ x m. refl) (λ m. refl) (λ x m. refl))
                        (also
                          (given-Restores response_kind Transaction.set_response (λ m. m.response)
                            Transaction.reset_response (λ x m. refl) (λ m. refl) (λ x m. refl))
                          (also
                            (given-Restores time_kind Transaction.set_created_at (λ m. m.created_at)
                              Transaction.reset_created_at (λ x m. refl) (λ m. refl) (λ x m. refl))
                            (done))))))))))))
      (λ v m m' h. ground (arith, h))

transfer-Restores :
    (name : String)
    → Restores (Transfer.set_field name) (Transfer.field name) (Transfer.reset_field name)
unfolding Transfer.set_field Transfer.field Transfer.reset_field
transfer-Restores name =
    switch-Matching Restores name
      (also
        (given-Restores string_kind Transfer.set_hash (λ m. m.hash) Transfer.reset_hash
          (λ x m. refl) (λ m. refl) (λ x m. refl))
        (also
          (given-Restores string_kind Transfer.set_func (λ m. m.func) Transfer.reset_func
            (λ x m. refl) (λ m. refl) (λ x m. refl))
          (also
            (given-Restores string_kind Transfer.set_from_address (λ m. m.from_address)
              Transfer.reset_from_address (λ x m. refl) (λ m. refl) (λ x m. refl))
            (also
              (given-Restores string_kind Transfer.set_to_address (λ m. m.to_address)
                Transfer.reset_to_address (λ x m. refl) (λ m. refl) (λ x m. refl))
              (also
                (given-Restores string_kind Transfer.set_token (λ m. m.token) Transfer.reset_token
                  (λ x m. refl) (λ m. refl) (λ x m. refl))
                (also
                  (given-Restores float_kind Transfer.set_amount (λ m. m.amount)
                    Transfer.reset_amount (λ x m. refl) (λ m. refl) (λ x m. refl))
                  (also
                    (given-Restores string_kind Transfer.set_denom (λ m. m.denom)
                      Transfer.reset_denom (λ x m. refl) (λ m. refl) (λ x m. refl))
                    (also
                      (given-Restores time_kind Transfer.set_created_at (λ m. m.created_at)
                        Transfer.reset_created_at (λ x m. refl) (λ m. refl) (λ x m. refl))
                      (done)))))))))
      (λ v m m' h. ground (arith, h))

restore_history-Restores :
    (name : String)
    → Restores
        (RestoreHistory.set_field name)
        (RestoreHistory.field name)
        (RestoreHistory.reset_field name)
unfolding RestoreHistory.set_field RestoreHistory.field RestoreHistory.reset_field
restore_history-Restores name =
    switch-Matching Restores name
      (also
        (given-Restores int_kind RestoreHistory.set_restore_range_start (λ m. m.restore_range_start)
          RestoreHistory.reset_restore_range_start (λ x m. refl) (λ m. refl) (λ x m. refl))
        (also
          (given-Restores int_kind RestoreHistory.set_restore_range_end (λ m. m.restore_range_end)
            RestoreHistory.reset_restore_range_end (λ x m. refl) (λ m. refl) (λ x m. refl))
          (also
            (given-Restores int_kind RestoreHistory.set_being_block (λ m. m.being_block)
              RestoreHistory.reset_being_block (λ x m. refl) (λ m. refl) (λ x m. refl))
            (done))))
      (λ v m m' h. ground (arith, h))

-- If SetField takes a value for a field of any of the five mutations, Field then returns that value,
-- ResetField then returns no error and leaves the field unset, and what it leaves is what it leaves
-- without the setting, so that no other field was changed.
pub set_field-Restores :
    (e : Entity) (name : String) (v : Value) (m m' : MutationOf e)
    → set_field e name v m ≡ assigned m'
    → (field e name m' ≡ some v)
      × (reset_field e name m' ≡ reset_field e name m)
      × (m'' : MutationOf e) × (reset_field e name m' ≡ assigned m'')
      × (field e name m'' ≡ none)
set_field-Restores account name v m m' h = account-Restores name v m m' h
set_field-Restores block name v m m' h = block-Restores name v m m' h
set_field-Restores transaction name v m m' h = transaction-Restores name v m m' h
set_field-Restores transfer name v m m' h = transfer-Restores name v m m' h
set_field-Restores restore_history name v m m' h = restore_history-Restores name v m m' h
