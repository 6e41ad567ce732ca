-- ===== src/Ent/WellFormed.antt =====
-- The invariant of the tables: keys are unique, and each reference has its target.
use gno_land_block_indexer.Prelude.{
  ◌≡◌, refl, ◌∙◌, Bool, true, false, ◌&&◌, String, Option, none, some, List, [], ◌∷◌, ◌++◌, ℤ, eq_ℤ,
  any, all, str_eq, eq_iff, arith, Bool-cases, inl, inr, any-append_false, append-nil, append_assoc,
}
use gno_land_block_indexer.Float64.{Float64}
use gno_land_block_indexer.Ent.Tables.{
  Tables, BlockRow, TransactionRow, AccountRow, TransferRow, has_block, has_account, blocks_fit,
  transactions_fit, transfers_fit, refers,
}
use gno_land_block_indexer.Ent.Balances.{credit, UniqueAddresses, is_account}

-- Heights and addresses are unique, transactions belong to stored blocks, and the addresses of
-- transfers to accounts.
pub record WellFormed (t : Tables) : Type 0 where
  pub heights : blocks_fit t.blocks [] ≡ true
  pub addresses : UniqueAddresses t.accounts
  pub transactions : transactions_fit t.transactions t ≡ true
  pub transfers : transfers_fit t.transfers t ≡ true

pub all-append :
    {R : Type 0} (p : R → Bool) (xs ys : List R)
    → all p xs ≡ true
    → all p ys ≡ true
    → all p (xs ++ ys) ≡ true
all-append p [] ys hx hy = hy
all-append p (x ∷ xs) ys hx hy = ground (arith, all-append p xs ys)

pub any-append_left :
    {R : Type 0} (p : R → Bool) (xs ys : List R) → any p xs ≡ true → any p (xs ++ ys) ≡ true
any-append_left p [] ys h = ground arith
any-append_left p (x ∷ xs) ys h = ground (arith, any-append_left p xs ys)

blocks_fit-append :
    (xs : List BlockRow) (r : BlockRow) (old : List BlockRow)
    → blocks_fit xs old ≡ true
    → has_block r.height (old ++ xs) ≡ false
    → blocks_fit (xs ++ r ∷ []) old ≡ true
blocks_fit-append [] r old h new = ground (arith, append-nil old)
blocks_fit-append (x ∷ xs) r old h new =
    ground (arith, blocks_fit-append xs r (old ++ x ∷ []), append_assoc old (x ∷ []) xs)

pub UniqueAddresses-append :
    (rs : List AccountRow) (r : AccountRow)
    → UniqueAddresses rs
    → has_account r.address rs ≡ false
    → UniqueAddresses (rs ++ r ∷ [])
UniqueAddresses-append [] r u new = (refl, tt)
UniqueAddresses-append (q ∷ rs) r (fresh, u) new =
    let other : str_eq r.address q.address ≡ false =
      ground (arith, eq_iff r.address q.address, eq_iff q.address r.address) in
    let rest : has_account r.address rs ≡ false = ground arith in
    (
      any-append_false (λ x. str_eq x.address q.address) rs r fresh other,
      UniqueAddresses-append rs r u rest,
    )

pub has_account-credit :
    (b a t : String) (x : Float64) (rs : List AccountRow)
    → has_account b (credit a t x rs) ≡ has_account b rs
has_account-credit b a t x [] = refl
has_account-credit b a t x (r ∷ rs) = ground (arith, has_account-credit b a t x rs)

pub UniqueAddresses-credit :
    (a t : String) (x : Float64) (rs : List AccountRow)
    → UniqueAddresses rs
    → UniqueAddresses (credit a t x rs)
UniqueAddresses-credit a t x [] u = tt
UniqueAddresses-credit a t x (r ∷ rs) (new, u) = elim (Bool-cases (is_account a t r)) [
  | inl here ↦
      rw here (has_account-credit r.address a t x rs ∙ new, UniqueAddresses-credit a t x rs u)
  | inr other ↦
      rw other (has_account-credit r.address a t x rs ∙ new, UniqueAddresses-credit a t x rs u)
]

refers_mono :
    (o : Option String) (s t : Tables)
    → ((a : String) → has_account a s.accounts ≡ true → has_account a t.accounts ≡ true)
    → refers o s ≡ true
    → refers o t ≡ true
refers_mono none s t grows h = refl
refers_mono (some a) s t grows h = grows a h

pub transfers_fit_mono :
    (rs : List TransferRow) (s t : Tables)
    → ((a : String) → has_account a s.accounts ≡ true → has_account a t.accounts ≡ true)
    → transfers_fit rs s ≡ true
    → transfers_fit rs t ≡ true
transfers_fit_mono [] s t grows h = refl
transfers_fit_mono (r ∷ rs) s t grows h = ground (
  arith,
  refers_mono r.from_address s t grows,
  refers_mono r.to_address s t grows,
  transfers_fit_mono rs s t grows,
)

transactions_fit_mono :
    (rs : List TransactionRow) (s t : Tables)
    → ((h : ℤ) → has_block h s.blocks ≡ true → has_block h t.blocks ≡ true)
    → transactions_fit rs s ≡ true
    → transactions_fit rs t ≡ true
transactions_fit_mono [] s t grows h = refl
transactions_fit_mono (r ∷ rs) s t grows h =
    ground (arith, grows r.block_id, transactions_fit_mono rs s t grows)

pub WellFormed-add_account :
    (t : Tables) (r : AccountRow)
    → has_account r.address t.accounts ≡ false
    → WellFormed t
    → WellFormed (record t { accounts = t.accounts ++ r ∷ [] })
WellFormed-add_account t r new w =
    let after : Tables = record t { accounts = t.accounts ++ r ∷ [] } in
    record {
      heights = w.heights;
      addresses = UniqueAddresses-append t.accounts r w.addresses new;
      transactions = transactions_fit_mono t.transactions t after (λ h k. k) w.transactions;
      transfers =
          transfers_fit_mono t.transfers t after
            (λ a k. any-append_left (λ q. str_eq q.address a) t.accounts (r ∷ []) k) w.transfers;
    }

pub WellFormed-credit :
    (t : Tables) (a token : String) (x : Float64)
    → WellFormed t
    → WellFormed (record t { accounts = credit a token x t.accounts })
WellFormed-credit t a token x w =
    let after : Tables = record t { accounts = credit a token x t.accounts } in
    record {
      heights = w.heights;
      addresses = UniqueAddresses-credit a token x t.accounts w.addresses;
      transactions = transactions_fit_mono t.transactions t after (λ h k. k) w.transactions;
      transfers =
          transfers_fit_mono t.transfers t after
            (λ b k. has_account-credit b a token x t.accounts ∙ k) w.transfers;
    }

pub WellFormed-add_transfers :
    (t : Tables) (rs : List TransferRow)
    → transfers_fit rs t ≡ true
    → WellFormed t
    → WellFormed (record t { transfers = t.transfers ++ rs })
WellFormed-add_transfers t rs fits w =
    let after : Tables = record t { transfers = t.transfers ++ rs } in
    record {
      heights = w.heights;
      addresses = w.addresses;
      transactions = transactions_fit_mono t.transactions t after (λ h k. k) w.transactions;
      transfers =
          transfers_fit_mono (t.transfers ++ rs) t after (λ a k. k)
            (all-append (λ r. refers r.from_address t && refers r.to_address t) t.transfers rs
              w.transfers fits);
    }

pub WellFormed-add_transactions :
    (t : Tables) (rs : List TransactionRow)
    → transactions_fit rs t ≡ true
    → WellFormed t
    → WellFormed (record t { transactions = t.transactions ++ rs })
WellFormed-add_transactions t rs fits w =
    let after : Tables = record t { transactions = t.transactions ++ rs } in
    record {
      heights = w.heights;
      addresses = w.addresses;
      transactions =
          transactions_fit_mono (t.transactions ++ rs) t after (λ h k. k)
            (all-append (λ r. has_block r.block_id t.blocks) t.transactions rs w.transactions fits);
      transfers = transfers_fit_mono t.transfers t after (λ a k. k) w.transfers;
    }

pub WellFormed-add_block :
    (t : Tables) (r : BlockRow)
    → has_block r.height t.blocks ≡ false
    → WellFormed t
    → WellFormed (record t { blocks = t.blocks ++ r ∷ [] })
WellFormed-add_block t r new w =
    let after : Tables = record t { blocks = t.blocks ++ r ∷ [] } in
    record {
      heights = blocks_fit-append t.blocks r [] w.heights new;
      addresses = w.addresses;
      transactions =
          transactions_fit_mono t.transactions t after
            (λ h k. any-append_left (λ q. eq_ℤ q.height h) t.blocks (r ∷ []) k) w.transactions;
      transfers = transfers_fit_mono t.transfers t after (λ a k. k) w.transfers;
    }
