-- ===== src/Ent/Accounts.antt =====
-- The accounts of the database, without the order in which a table lists its rows: tables with
-- unique addresses up to a permutation. What they hold is a ledger.
use mathlib.Core.Quot
use mathlib.Core.Quot.{Quot}
use gno_land_block_indexer.Prelude.{◌≡◌, refl, String, List, ◌∷◌, arith, eq_iff}
use gno_land_block_indexer.Float64.{Float64}
use gno_land_block_indexer.Ent.Tables.{AccountRow}
use gno_land_block_indexer.Ent.Balances.{balance, UniqueAddresses}

pub record AccountTable : Type 0 where
  pub rows : List AccountRow
  pub unique : UniqueAddresses rows

-- Two neighbours are exchanged somewhere, or nothing is. The quotient closes it to permutations.
pub data Exchanged : List AccountRow → List AccountRow → Type 0 where
  same : {rs : List AccountRow} → Exchanged rs rs
  here : {r q : AccountRow} {rs : List AccountRow} → Exchanged (r ∷ q ∷ rs) (q ∷ r ∷ rs)
  below :
      {r : AccountRow} {rs rs' : List AccountRow} → Exchanged rs rs' → Exchanged (r ∷ rs) (r ∷ rs')

abbrev pub SameTable : AccountTable → AccountTable → Type 0
SameTable x y = Exchanged x.rows y.rows

abbrev pub Accounts : Type 0
Accounts = Quot SameTable

Float64_set : IsSet Float64
Float64_set = hlevel

balance-Exchanged :
    (a t : String) {rs rs' : List AccountRow}
    → Exchanged rs rs'
    → UniqueAddresses rs
    → balance a t rs ≡ balance a t rs'
unfolding balance
balance-Exchanged a t same u = refl
balance-Exchanged a t (here {r} {q} {rs}) (new, u) =
    ground (arith, new, eq_iff r.address a, eq_iff q.address a, eq_iff q.address r.address)
balance-Exchanged a t (below {r} h) (new, u) = rw (balance-Exchanged a t h u) refl

-- The balances of the accounts.
pub ledger_of : Accounts → String → String → Float64
ledger_of q a t =
    Quot.lift Float64_set (λ x. balance a t x.rows) (λ x y h. balance-Exchanged a t h x.unique) q

pub ledger_of-mk :
    (x : AccountTable) (a t : String) → ledger_of (Quot.mk x) a t ≡ balance a t x.rows
unfolding ledger_of
ledger_of-mk x a t = refl
