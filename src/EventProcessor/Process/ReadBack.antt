-- ===== src/EventProcessor/Process/ReadBack.antt =====
-- What `GetBalances` answers after a block was processed, against the ideal ledger.
use gno_land_block_indexer.Prelude.{
  ◌≡◌, ◌≢◌, refl, sym, ◌∙◌, ap, ◌⊎◌, inl, inr, false, String, Option, none, some, List, [], ◌∷◌,
  pos, All, if◌then◌else◌, str_eq, eq_iff, arith, Bool-cases,
}
use gno_land_block_indexer.Float64.{Float64}
use gno_land_block_indexer.Model.{Time, Block, Transaction, TokenBalance}
use gno_land_block_indexer.Ent.Error.{ok}
use gno_land_block_indexer.Ent.Tables.{AccountRow, has_account, has_block}
use gno_land_block_indexer.Ent.Groups.{
  amounts, Split, nothing, left, right, IsSum, single, joined, IsSum-ne, IsSumOf,
}
use gno_land_block_indexer.Ent.Balances.{balance, exists_account, UniqueAddresses}
use gno_land_block_indexer.Ent.WellFormed.{WellFormed}
use gno_land_block_indexer.Ent.Database.{Database, IsLawful}
use gno_land_block_indexer.Repository.Accounts.{get_balances}
use gno_land_block_indexer.Repository.Accounts.Sums.{balance_of, accounts_of, get_balances-Adds}
use gno_land_block_indexer.EventProcessor.Ledger.{Ledger, IsAddressed, apply_transactions}
use gno_land_block_indexer.EventProcessor.Process.{process_block_with_transactions}
use gno_land_block_indexer.EventProcessor.Process.Laws.{Shows}
use gno_land_block_indexer.EventProcessor.Process.Refinement.{process_block-Processed}
use gno_land_block_indexer.EventProcessor.Process.Invariant.{process_block-WellFormed}

-- The amount of an account, if there is one.
abbrev own_amount : String → String → List AccountRow → Option Float64
own_amount a t rs = if exists_account a t rs then some (balance a t rs) else none

abbrev one_or_none : Option Float64 → List Float64
one_or_none none = []
one_or_none (some x) = x ∷ []

none_of :
    (a : String) (rs : List AccountRow) → a ≢ "" → has_account a rs ≡ false → accounts_of a rs ≡ []
none_of a [] named new = refl
none_of a (r ∷ rs) named new = ground (arith, eq_iff a "", none_of a rs named)

no_account :
    (a t : String) (rs : List AccountRow) → has_account a rs ≡ false → exists_account a t rs ≡ false
no_account a t [] new = refl
no_account a t (r ∷ rs) new = ground (arith, no_account a t rs)

amounts_of_address :
    (a t : String) (rs : List AccountRow)
    → a ≢ ""
    → UniqueAddresses rs
    → amounts t (accounts_of a rs) ≡ one_or_none (own_amount a t rs)
unfolding balance
amounts_of_address a t [] named u = refl
amounts_of_address a t (r ∷ rs) named (new, u) = elim (Bool-cases (str_eq r.address a)) [
  | inl here ↦
      let same : r.address ≡ a = (eq_iff r.address a).0 here in
      let free : has_account a rs ≡ false = rw same at new in
      let nothing_else = none_of a rs named free in
      let absent = no_account a t rs free in ground (arith, eq_iff a "", nothing_else, absent)
  | inr other ↦ ground (arith, eq_iff a "", amounts_of_address a t rs named u)
]

apart_of_one :
    {zs xs ys : List Float64} {x : Float64} → Split zs xs ys → zs ≡ x ∷ [] → (xs ≡ []) ⊎ (ys ≡ [])
apart_of_one nothing e = cc
apart_of_one (left y nothing) e = inr refl
apart_of_one (left y (left z split)) e = cc
apart_of_one (left y (right z split)) e = cc
apart_of_one (right y nothing) e = inl refl
apart_of_one (right y (left z split)) e = cc
apart_of_one (right y (right z split)) e = cc

sum_of_one : {zs : List Float64} {x a : Float64} → IsSum zs a → zs ≡ x ∷ [] → a ≡ x
sum_of_one (single y) e = cc
sum_of_one (joined split h k) e = elim (apart_of_one split e) [
  | inl empty ↦ absurd (IsSum-ne h empty)
  | inr empty ↦ absurd (IsSum-ne k empty)
]

only_amount : (o p : Option Float64) → IsSumOf (one_or_none o) p → p ≡ o
only_amount none none h = refl
only_amount none (some a) h = absurd (IsSum-ne h refl)
only_amount (some x) none h = cc
only_amount (some x) (some a) h = ap some (sum_of_one h refl)

absent_lem :
    (a t : String) (rs : List AccountRow) → exists_account a t rs ≡ false → balance a t rs ≡ pos 0
unfolding balance
absent_lem a t [] h = refl
absent_lem a t (r ∷ rs) h = ground (arith, absent_lem a t rs)

module _ (D : Database) (L : IsLawful D) where
  open D use {State, tables}

  -- The answer gives the ledger's balance for the token, or does not list it, and the balance is 0.
  abbrev pub Reads : String → List TokenBalance → Float64 → Type 0
  Reads t bs x = (balance_of t bs ≡ some x) ⊎ ((balance_of t bs ≡ none) × (x ≡ pos 0))

  read_out :
      (a t : String) (l : Ledger) (s : State) (bs : List TokenBalance)
      → a ≢ ""
      → UniqueAddresses (tables s).accounts
      → Shows D L l s
      → IsSumOf (amounts t (accounts_of a (tables s).accounts)) (balance_of t bs)
      → Reads t bs (l a t)
  read_out a t l s bs named u h sum =
      let rs = (tables s).accounts in
      let listed : balance_of t bs ≡ own_amount a t rs =
        only_amount (own_amount a t rs) (balance_of t bs)
          (rw (amounts_of_address a t rs named u) at sum) in
      elim (Bool-cases (exists_account a t rs)) [
        | inl there ↦ inl (listed ∙ rw there (ap some (h a t)))
        | inr absent ↦ inr (listed ∙ rw absent refl, sym (h a t) ∙ absent_lem a t rs absent)
      ]

  -- On a lawful database with well-formed tables that show a ledger: if a new block, whose transfer
  -- events name their parties, is processed without an error, and `GetBalances` then answers for a named
  -- address without an error, the answer gives, for each token, the balance that the ledger has after the
  -- block's transactions, or does not list the token, and this balance is 0.
  pub process_block-get_balances :
      (now : Time) (b : Block) (txs : List Transaction) (l : Ledger) (a t : String) (s s' : State)
      (bs : List TokenBalance)
      → All IsAddressed txs
      → Shows D L l s
      → WellFormed (tables s)
      → has_block b.height (tables s).blocks ≡ false
      → a ≢ ""
      → process_block_with_transactions D now (record { block = some b; transactions = txs }) s
        ≡ (ok tt, s')
      → get_balances D a s' ≡ ok bs
      → Reads t bs (apply_transactions txs l a t)
  process_block-get_balances now b txs l a t s s' bs addressed h w new named done answered =
      let processed = rw done at (process_block-Processed D L now b txs l s addressed h) in
      let shown : Shows D L (apply_transactions txs l) s' = rw new at processed in
      let formed : WellFormed (tables s') =
        rw done at
          (process_block-WellFormed D L now (record { block = some b; transactions = txs }) s w) in
      let adds = rw answered at (get_balances-Adds D L a t s') in
      read_out a t (apply_transactions txs l) s' bs named formed.addresses shown adds.1
