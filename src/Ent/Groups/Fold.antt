-- ===== src/Ent/Groups/Fold.antt =====
-- The groups as they come when the rows are added one by one, in their order.
use gno_land_block_indexer.Prelude.{
  ◌≡◌, refl, String, Option, none, some, List, [], ◌∷◌, ◌++◌, any, append_assoc, append-nil, ◌||◌,
  if◌then◌else◌, str_eq, eq_iff, arith, Bool-cases, inl, inr,
}
use gno_land_block_indexer.Float64.{Float64, add}
use gno_land_block_indexer.Ent.Tables.{AccountRow}
use gno_land_block_indexer.Ent.Groups.{
  amounts, amount_of, Split, nothing, left, right, single, joined, IsSumOf, HasDistinctTokens,
  IsGrouped,
}

abbrev group_row : List (String × Float64) → AccountRow → List (String × Float64)
group_row [] r = (r.token, r.amount) ∷ []
group_row ((t, a) ∷ g) r =
    if str_eq t r.token then (t, add a r.amount) ∷ g else (t, a) ∷ group_row g r

abbrev pub group_sums : List (String × Float64) → List AccountRow → List (String × Float64)
group_sums g [] = g
group_sums g (r ∷ rs) = group_sums (group_row g r) rs

abbrev plus : Option Float64 → Float64 → Option Float64
plus none x = some x
plus (some a) x = some (add a x)

abbrev total : String → Option Float64 → List AccountRow → Option Float64
total t sum [] = sum
total t sum (r ∷ rs) = total t (if str_eq r.token t then plus sum r.amount else sum) rs

amount_of-group_row :
    (t : String) (g : List (String × Float64)) (r : AccountRow)
    → amount_of t (group_row g r)
      ≡ (if str_eq r.token t then plus (amount_of t g) r.amount else amount_of t g)
amount_of-group_row t [] r = refl
amount_of-group_row t ((u, a) ∷ g) r =
    ground (arith, amount_of-group_row t g r, eq_iff u r.token, eq_iff u t, eq_iff r.token t)

amount_of-group_sums :
    (t : String) (g : List (String × Float64)) (rs : List AccountRow)
    → amount_of t (group_sums g rs) ≡ total t (amount_of t g) rs
amount_of-group_sums t g [] = refl
amount_of-group_sums t g (r ∷ rs) =
    rw (amount_of-group_sums t (group_row g r) rs, amount_of-group_row t g r) refl

any-group_row :
    (u : String) (g : List (String × Float64)) (r : AccountRow)
    → any (λ c. str_eq c.0 u) (group_row g r) ≡ (any (λ c. str_eq c.0 u) g || str_eq r.token u)
any-group_row u [] r = ground arith
any-group_row u ((v, a) ∷ g) r = ground (arith, any-group_row u g r, eq_iff v r.token)

group_row-HasDistinctTokens :
    (g : List (String × Float64)) (r : AccountRow)
    → HasDistinctTokens g
    → HasDistinctTokens (group_row g r)
group_row-HasDistinctTokens [] r h = (refl, tt)
group_row-HasDistinctTokens ((u, a) ∷ g) r (new, h) = elim (Bool-cases (str_eq u r.token)) [
  | inl same ↦ rw same (new, h)
  | inr other ↦ rw other (
    ground (arith, any-group_row u g r, new, eq_iff u r.token, eq_iff r.token u),
    group_row-HasDistinctTokens g r h,
  )
]

group_sums-HasDistinctTokens :
    (g : List (String × Float64)) (rs : List AccountRow)
    → HasDistinctTokens g
    → HasDistinctTokens (group_sums g rs)
group_sums-HasDistinctTokens g [] h = h
group_sums-HasDistinctTokens g (r ∷ rs) h =
    group_sums-HasDistinctTokens (group_row g r) rs (group_row-HasDistinctTokens g r h)

last_apart : (xs : List Float64) (x : Float64) → Split (xs ++ x ∷ []) xs (x ∷ [])
last_apart [] x = right x nothing
last_apart (y ∷ xs) x = left y (last_apart xs x)

plus-IsSumOf :
    (xs : List Float64) (o : Option Float64) (x : Float64)
    → IsSumOf xs o
    → IsSumOf (xs ++ x ∷ []) (plus o x)
plus-IsSumOf xs none x h = rw h (single x)
plus-IsSumOf xs (some a) x h = joined (last_apart xs x) h (single x)

total-IsSumOf :
    (t : String) (xs : List Float64) (o : Option Float64) (rs : List AccountRow)
    → IsSumOf xs o
    → IsSumOf (xs ++ amounts t rs) (total t o rs)
total-IsSumOf t xs o [] h = rw (append-nil xs) h
total-IsSumOf t xs o (r ∷ rs) h = elim (Bool-cases (str_eq r.token t)) [
  | inl y ↦ rw y (
      rw⁻¹ (append_assoc xs (r.amount ∷ []) (amounts t rs))
        (total-IsSumOf t (xs ++ r.amount ∷ []) (plus o r.amount) rs (plus-IsSumOf xs o r.amount h)))
  | inr n ↦ rw n (total-IsSumOf t xs o rs h)
]

pub group_sums-IsGrouped : (rs : List AccountRow) → IsGrouped rs (group_sums [] rs)
group_sums-IsGrouped rs = (
  group_sums-HasDistinctTokens [] rs tt,
  λ t. rw (amount_of-group_sums t [] rs) (total-IsSumOf t [] none rs refl),
)
