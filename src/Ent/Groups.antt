-- ===== src/Ent/Groups.antt =====
-- `SELECT token, SUM(amount) … GROUP BY token`. The database adds the amounts of a token up in an order,
-- and with intermediate sums, of its own choice, and floating-point numbers show the difference.
pub mod Fold
use gno_land_block_indexer.Prelude.{
  ℕ, ◌+◌, ◌<◌, ◌≤◌, ◌^◌, ◌≡◌, ◌≢◌, refl, ap, ◌∙◌, Bool, true, false, String, Option, none, some,
  List, [], ◌∷◌, any, ℤ, pos, pos_part, neg_part, ◌+ℤ◌, +ℤ_parts, eq_of_parts, str_eq,
  if◌then◌else◌, arith,
}
use gno_land_block_indexer.Float64.{Float64, add, IsExact, add-eq_exact}
use gno_land_block_indexer.Ent.Tables.{AccountRow}

-- The amounts of the rows with the token.
abbrev pub amounts : String → List AccountRow → List Float64
amounts t [] = []
amounts t (r ∷ rs) = if str_eq r.token t then r.amount ∷ amounts t rs else amounts t rs

-- The amount of a token among grouped sums.
abbrev pub amount_of : String → List (String × Float64) → Option Float64
amount_of t [] = none
amount_of t ((u, a) ∷ g) = if str_eq u t then some a else amount_of t g

-- Each item of the first list is in one of the two others.
pub data Split : List Float64 → List Float64 → List Float64 → Type 0 where
  nothing : Split [] [] []
  left : (x : Float64) {zs xs ys : List Float64} → Split zs xs ys → Split (x ∷ zs) (x ∷ xs) ys
  right : (x : Float64) {zs xs ys : List Float64} → Split zs xs ys → Split (x ∷ zs) xs (x ∷ ys)

-- The number is the sum of the amounts, added up in some order and with some intermediate sums.
pub data IsSum : List Float64 → Float64 → Type 0 where
  single : (x : Float64) → IsSum (x ∷ []) x
  joined :
      {zs xs ys : List Float64} {a b : Float64}
      → Split zs xs ys
      → IsSum xs a
      → IsSum ys b
      → IsSum zs (add a b)

abbrev pub IsSumOf : List Float64 → Option Float64 → Type 0
IsSumOf xs none = xs ≡ []
IsSumOf xs (some a) = IsSum xs a

abbrev pub HasDistinctTokens : List (String × Float64) → Type 0
HasDistinctTokens [] = Unit
HasDistinctTokens ((u, a) ∷ g) = (any (λ c. str_eq c.0 u) g ≡ false) × HasDistinctTokens g

-- The groups that the query may answer with, for these rows.
abbrev pub IsGrouped : List AccountRow → List (String × Float64) → Type 0
IsGrouped rows g = HasDistinctTokens g × ((t : String) → IsSumOf (amounts t rows) (amount_of t g))

-- The sum with no rounding.
abbrev pub exact_sum : List Float64 → ℤ
exact_sum [] = pos 0
exact_sum (x ∷ xs) = x +ℤ exact_sum xs

-- The sum of the amounts' magnitudes.
abbrev pub magnitude : List Float64 → ℕ
magnitude [] = 0
magnitude (x ∷ xs) = pos_part x + neg_part x + magnitude xs

exact_sum_bounds :
    (xs : List Float64)
    → (pos_part (exact_sum xs) ≤ magnitude xs) × (neg_part (exact_sum xs) ≤ magnitude xs)
exact_sum_bounds [] = (omega arith, omega arith)
exact_sum_bounds (x ∷ xs) =
    let bounds = exact_sum_bounds xs in
    let parts = +ℤ_parts x (exact_sum xs) in (ground arith, ground arith)

sums_of_both :
    {zs xs ys : List Float64}
    → Split zs xs ys
    → (magnitude zs ≡ magnitude xs + magnitude ys) × (exact_sum xs +ℤ exact_sum ys ≡ exact_sum zs)
unfolding ◌+ℤ◌
sums_of_both nothing = (refl, refl)
sums_of_both (left x {zs} {xs} {ys} split) =
    let (sizes, sums) = sums_of_both split in
    (
      omega (arith, sizes),
      eq_of_parts _ _ (
          omega (
            arith,
            +ℤ_parts x (exact_sum xs),
            +ℤ_parts (x +ℤ exact_sum xs) (exact_sum ys),
            +ℤ_parts x (exact_sum zs),
            +ℤ_parts (exact_sum xs) (exact_sum ys),
            ap pos_part sums,
            ap neg_part sums,
          )),
    )
sums_of_both (right x {zs} {xs} {ys} split) =
    let (sizes, sums) = sums_of_both split in
    (
      omega (arith, sizes),
      eq_of_parts _ _ (
          omega (
            arith,
            +ℤ_parts x (exact_sum ys),
            +ℤ_parts (exact_sum xs) (x +ℤ exact_sum ys),
            +ℤ_parts x (exact_sum zs),
            +ℤ_parts (exact_sum xs) (exact_sum ys),
            ap pos_part sums,
            ap neg_part sums,
          )),
    )

single_sum : (x : Float64) → x ≡ exact_sum (x ∷ [])
single_sum x = eq_of_parts x (x +ℤ pos 0) (omega (arith, +ℤ_parts x (pos 0)))

-- Whatever the order, the sum is exact if the magnitudes stay below 2 ^ 53 together.
pub IsSum-exact :
    {xs : List Float64} {a : Float64} → IsSum xs a → magnitude xs < 2 ^ 53 → a ≡ exact_sum xs
IsSum-exact (single x) small = single_sum x
IsSum-exact (joined {zs} {xs} {ys} {a} {b} split h k) small =
    let (sizes, sums) = sums_of_both split in
    let one : a ≡ exact_sum xs = IsSum-exact h (omega (arith, sizes)) in
    let two : b ≡ exact_sum ys = IsSum-exact k (omega (arith, sizes)) in
    let (above, below) = exact_sum_bounds zs in
    let exact : IsExact (exact_sum xs +ℤ exact_sum ys) = rw sums (omega arith, omega arith) in
    rw (one, two) (add-eq_exact (exact_sum xs) (exact_sum ys) exact) ∙ sums

part_of_empty : {zs xs ys : List Float64} → Split zs xs ys → zs ≡ [] → xs ≡ []
part_of_empty nothing e = refl
part_of_empty (left x split) e = cc
part_of_empty (right x split) e = cc

pub IsSum-ne : {xs : List Float64} {a : Float64} → IsSum xs a → xs ≢ []
IsSum-ne (single x) e = cc
IsSum-ne (joined split h k) e = IsSum-ne h (part_of_empty split e)

-- The sum as an answer: none if there is no amount.
abbrev pub exact_answer : List Float64 → Option Float64
exact_answer [] = none
exact_answer (x ∷ xs) = some (exact_sum (x ∷ xs))

pub IsSumOf-exact :
    (xs : List Float64) (o : Option Float64)
    → IsSumOf xs o
    → magnitude xs < 2 ^ 53
    → o ≡ exact_answer xs
IsSumOf-exact [] none h small = refl
IsSumOf-exact (x ∷ xs) none h small = cc
IsSumOf-exact [] (some a) h small = absurd (IsSum-ne h refl)
IsSumOf-exact (x ∷ xs) (some a) h small = ap some (IsSum-exact h small)
