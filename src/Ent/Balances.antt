-- ===== src/Ent/Balances.antt =====
-- The balance that a table of accounts holds for an address and a token, under the statements that
-- the program runs on it.
use gno_land_block_indexer.Prelude.{
  Bool, true, false, ◌&&◌, ◌≡◌, ◌≢◌, ◌||◌, not, ◌⊎◌, ap, refl, String, List, [], ◌∷◌, ◌++◌, pos,
  any, if◌then◌else◌, str_eq, eq_iff, arith, keep, Bool-cases, inl, inr,
}
use gno_land_block_indexer.Float64.{Float64, add}
use gno_land_block_indexer.Ent.Tables.{
  AccountRow, AccountPredicate, id_eq, token_eq, account_holds, holds_all, add_amount, update_where,
  has_account,
}

-- The condition of the account of an address and a token.
abbrev pub key : String → String → List AccountPredicate
key a t = id_eq a ∷ token_eq t ∷ []

abbrev pub is_account : String → String → AccountRow → Bool
is_account a t = holds_all account_holds (key a t)

abbrev pub exists_account : String → String → List AccountRow → Bool
exists_account a t = any (is_account a t)

-- The amount of the account of `a` for `t`, and 0 where there is none.
unfoldable pub balance : String → String → List AccountRow → Float64
balance a t [] = pos 0
balance a t (r ∷ rs) = if is_account a t r then r.amount else balance a t rs

abbrev pub credit : String → String → Float64 → List AccountRow → List AccountRow
credit a t x = update_where (is_account a t) (add_amount x)

abbrev pub zero_row : String → String → AccountRow
zero_row a t = record { address = a; token = t; amount = pos 0 }

-- The table after an account was looked up and created if it was missing.
abbrev pub ensured : String → String → List AccountRow → List AccountRow
ensured a t rs = if exists_account a t rs then rs else rs ++ zero_row a t ∷ []

pub balance-credit_self :
    (a t : String) (x : Float64) (rs : List AccountRow)
    → exists_account a t rs ≡ true
    → balance a t (credit a t x rs) ≡ add (balance a t rs) x
unfolding balance
balance-credit_self a t x [] h = ground arith
balance-credit_self a t x (r ∷ rs) h = ground (arith, balance-credit_self a t x rs)

pub balance-credit_ne :
    (a t b u : String) (x : Float64) (rs : List AccountRow)
    → (str_eq a b && str_eq t u) ≡ false
    → balance b u (credit a t x rs) ≡ balance b u rs
unfolding balance
balance-credit_ne a t b u x [] h = refl
balance-credit_ne a t b u x (r ∷ rs) h = ground (
  arith,
  eq_iff a b,
  eq_iff t u,
  eq_iff r.address a,
  eq_iff r.address b,
  eq_iff r.token t,
  eq_iff r.token u,
  balance-credit_ne a t b u x rs h,
)

balance-append_zero :
    (a t b u : String) (rs : List AccountRow)
    → balance b u (rs ++ zero_row a t ∷ []) ≡ balance b u rs
unfolding balance
balance-append_zero a t b u [] = ground arith
balance-append_zero a t b u (r ∷ rs) = ground (arith, balance-append_zero a t b u rs)

-- To create a missing account changes no balance.
pub balance-ensured :
    (a t b u : String) (rs : List AccountRow) → balance b u (ensured a t rs) ≡ balance b u rs
balance-ensured a t b u rs = ground (arith, balance-append_zero a t b u rs)

exists-append :
    (a t b u : String) (rs : List AccountRow)
    → exists_account a t rs ≡ true
    → exists_account a t (rs ++ zero_row b u ∷ []) ≡ true
exists-append a t b u [] h = ground arith
exists-append a t b u (r ∷ rs) h = ground (arith, exists-append a t b u rs)

exists-append_self :
    (a t : String) (rs : List AccountRow) → exists_account a t (rs ++ zero_row a t ∷ []) ≡ true
exists-append_self a t [] = ground (arith, eq_iff a a, eq_iff t t)
exists-append_self a t (r ∷ rs) = ground (arith, exists-append_self a t rs)

pub exists-ensured :
    (a t : String) (rs : List AccountRow) → exists_account a t (ensured a t rs) ≡ true
exists-ensured a t rs = ground (arith, exists-append_self a t rs)

pub exists-ensured_other :
    (a t b u : String) (rs : List AccountRow)
    → exists_account a t rs ≡ true
    → exists_account a t (ensured b u rs) ≡ true
exists-ensured_other a t b u rs h = ground (arith, exists-append a t b u rs)

pub exists-credit :
    (a t b u : String) (x : Float64) (rs : List AccountRow)
    → exists_account a t (credit b u x rs) ≡ exists_account a t rs
exists-credit a t b u x [] = refl
exists-credit a t b u x (r ∷ rs) = ground (arith, exists-credit a t b u x rs)

-- What a query for the account finds.
pub keep-eq-nil :
    (a t : String) (rs : List AccountRow)
    → exists_account a t rs ≡ false
    → keep (is_account a t) rs ≡ []
keep-eq-nil a t [] h = refl
keep-eq-nil a t (r ∷ rs) h = ground (arith, keep-eq-nil a t rs)

pub keep-ne-nil :
    (a t : String) (rs : List AccountRow)
    → exists_account a t rs ≡ true
    → keep (is_account a t) rs ≢ []
keep-ne-nil a t [] h = ground arith
keep-ne-nil a t (r ∷ rs) h = ground (arith, keep-ne-nil a t rs)

-- The primary key covers the address alone.
pub has_account_of_exists :
    (a t : String) (rs : List AccountRow) → exists_account a t rs ≡ true → has_account a rs ≡ true
has_account_of_exists a t [] h = ground arith
has_account_of_exists a t (r ∷ rs) h = ground (arith, has_account_of_exists a t rs)

-- No two accounts have the same address.
abbrev pub UniqueAddresses : List AccountRow → Type 0
UniqueAddresses [] = Unit
UniqueAddresses (r ∷ rs) = (has_account r.address rs ≡ false) × UniqueAddresses rs

-- Whether a lookup and an insert for the address and the token can both succeed.
abbrev pub is_open : String → String → List AccountRow → Bool
is_open a t rs = exists_account a t rs || not (has_account a rs)

no_account :
    (a t : String) (rs : List AccountRow) → has_account a rs ≡ false → exists_account a t rs ≡ false
no_account a t rs h = ground (arith, has_account_of_exists a t rs)

-- A key finds one account at most.
pub keep_unique :
    (a t : String) (rs : List AccountRow)
    → UniqueAddresses rs
    → (keep (is_account a t) rs ≡ []) ⊎ ((r : AccountRow) × (keep (is_account a t) rs ≡ r ∷ []))
keep_unique a t [] u = inl refl
keep_unique a t (r ∷ rs) (new, u) = elim (Bool-cases (is_account a t r)) [
  | inl here ↦
      let empty : exists_account a t rs ≡ false =
        no_account a t rs (ground (arith, eq_iff r.address a)) in
      inr (r, rw here (ap (λ rest. r ∷ rest) (keep-eq-nil a t rs empty)))
  | inr other ↦ rw other (keep_unique a t rs u)
]
