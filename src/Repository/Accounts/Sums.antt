-- ===== src/Repository/Accounts/Sums.antt =====
-- What `GetBalances` answers: the sum of each token over the accounts that it asks for.
use gno_land_block_indexer.Prelude.{
  ◌<◌, ◌^◌, ◌≡◌, refl, ◌∙◌, Bool, true, false, String, Option, none, some, List, [], ◌∷◌, map, keep,
  any, if◌then◌else◌, str_eq, arith,
}
use gno_land_block_indexer.Float64.{Float64}
use gno_land_block_indexer.Model.{TokenBalance}
use gno_land_block_indexer.Ent.Error.{Result, ok, err, wrap, driver}
use gno_land_block_indexer.Ent.Groups.{
  amounts, amount_of, HasDistinctTokens, magnitude, exact_answer, IsSumOf, IsSumOf-exact,
}
use gno_land_block_indexer.Ent.Tables.{AccountRow, account_holds, holds_all, id_eq}
use gno_land_block_indexer.Ent.Database.{Database, IsLawful, Grouping}
use gno_land_block_indexer.Ent.Client.{all_nodes}
use gno_land_block_indexer.Repository.Accounts.{balance_model, found_balances, get_balances}

-- No token is listed twice.
abbrev pub AllDistinct : List TokenBalance → Type 0
AllDistinct [] = Unit
AllDistinct (b ∷ bs) = (any (λ c. str_eq c.token b.token) bs ≡ false) × AllDistinct bs

-- The amount that the answer gives for a token.
abbrev pub balance_of : String → List TokenBalance → Option Float64
balance_of t [] = none
balance_of t (b ∷ bs) = if str_eq b.token t then some b.amount else balance_of t bs

keep-same :
    (p q : AccountRow → Bool) (rs : List AccountRow)
    → ((r : AccountRow) → p r ≡ q r)
    → keep p rs ≡ keep q rs
keep-same p q [] h = refl
keep-same p q (r ∷ rs) h = rw (h r, keep-same p q rs h) refl

-- The accounts of the address, or all of them if it is empty.
abbrev pub accounts_of : String → List AccountRow → List AccountRow
accounts_of address rs = keep (λ r. if str_eq address "" then true else str_eq r.address address) rs

module _ (D : Database) (L : IsLawful D) where
  open D use {State, tables}

  balance_of-models :
      (t : String) (g : List (String × Float64))
      → balance_of t (map (balance_model D) g) ≡ amount_of t g
  balance_of-models t [] = refl
  balance_of-models t ((u, a) ∷ g) = rw (balance_of-models t g) refl

  any-models :
      (u : String) (g : List (String × Float64))
      → any (λ c. str_eq c.token u) (map (balance_model D) g) ≡ any (λ c. str_eq c.0 u) g
  any-models u [] = refl
  any-models u ((v, a) ∷ g) = rw (any-models u g) refl

  models-AllDistinct :
      (g : List (String × Float64)) → HasDistinctTokens g → AllDistinct (map (balance_model D) g)
  models-AllDistinct [] h = tt
  models-AllDistinct ((u, a) ∷ g) (new, h) = (any-models u g ∙ new, models-AllDistinct g h)

  -- An answer without an error lists each token once, with a sum of its amounts over the rows, added up
  -- in some order; an error is the driver's.
  abbrev pub Adds : String → List AccountRow → Result (List TokenBalance) → Type 0
  Adds t rows (ok bs) = AllDistinct bs × IsSumOf (amounts t rows) (balance_of t bs)
  Adds t rows (err e) = e ≡ wrap "failed to get balances" driver

  found-Adds :
      (t : String) (rows : List AccountRow) (o : Option (List (String × Float64)))
      → Grouping o rows
      → Adds t rows (found_balances D (all_nodes o))
  found-Adds t rows none h = refl
  found-Adds t rows (some g) (distinct, sums) =
      (models-AllDistinct g distinct, rw (balance_of-models t g) (sums t))

  asked_for :
      (address : String) (empty : Bool) (r : AccountRow)
      → holds_all account_holds (if empty then [] else id_eq address ∷ []) r
        ≡ (if empty then true else str_eq r.address address)
  asked_for address true r = refl
  asked_for address false r = ground arith

  pub get_balances-Adds :
      (address t : String) (s : State)
      → Adds t (accounts_of address (tables s).accounts) (get_balances D address s)
  unfolding get_balances
  get_balances-Adds address t s =
      let ps = if str_eq address "" then [] else id_eq address ∷ [] in
      let same = keep-same _ _ (tables s).accounts (asked_for address (str_eq address "")) in
      found-Adds t (accounts_of address (tables s).accounts) (D.sum_amounts_by_token ps s)
        (rw same at (L.sum_amounts_by_token-Answers ps s))

  -- An answer without an error lists each token once, with its sum over the rows and no rounding; an
  -- error is the driver's.
  abbrev pub Sums : String → List AccountRow → Result (List TokenBalance) → Type 0
  Sums t rows (ok bs) = AllDistinct bs × (balance_of t bs ≡ exact_answer (amounts t rows))
  Sums t rows (err e) = e ≡ wrap "failed to get balances" driver

  exact-Sums :
      (t : String) (rows : List AccountRow) (out : Result (List TokenBalance))
      → Adds t rows out
      → magnitude (amounts t rows) < 2 ^ 53
      → Sums t rows out
  exact-Sums t rows (ok bs) (distinct, sum) small =
      (distinct, IsSumOf-exact (amounts t rows) (balance_of t bs) sum small)
  exact-Sums t rows (err e) h small = h

  -- On a lawful database, which may add up in any order: `GetBalances` of an address lists each token
  -- once, and for a token whose amounts, over the accounts of this address, or over all accounts if the
  -- address is empty, stay below 2 ^ 53 together in magnitude, it gives exactly their sum, and none if
  -- there is no such account; it returns an error only if the driver fails.
  pub get_balances-Sums :
      (address t : String) (s : State)
      → magnitude (amounts t (accounts_of address (tables s).accounts)) < 2 ^ 53
      → Sums t (accounts_of address (tables s).accounts) (get_balances D address s)
  get_balances-Sums address t s small =
      exact-Sums t (accounts_of address (tables s).accounts) (get_balances D address s)
        (get_balances-Adds address t s) small
