-- ===== src/Repository/Blocks/Highest.antt =====
-- The first of the blocks in descending order is a highest one.
use gno_land_block_indexer.Prelude.{
  ◌⊎◌, ◌≡◌, refl, Option, none, some, List, [], ◌∷◌, ltb_ℤ, ◌≤ℤ◌, take, All, Among, All-map, arith,
  Bool-cases, inl, inr,
}
use gno_land_block_indexer.Model.{Block}
use gno_land_block_indexer.Ent.Error.{Result, ok, err, first_node, driver, wrap, Error}
use gno_land_block_indexer.Ent.Tables.{BlockRow}
use gno_land_block_indexer.Ent.Client.{then_nodes}
use gno_land_block_indexer.Ent.Database.{
  Database, IsLawful, Answers, insert_row, order_by, height_desc,
}
use gno_land_block_indexer.Repository.Blocks.{found_highest, get_highest_block}

-- The first row, if there is one, is one of the rows, and none of them is higher.
abbrev pub IsTop : List BlockRow → List BlockRow → Type 0
IsTop [] rs = rs ≡ []
IsTop (h ∷ t) rs = All (λ r. r.height ≤ℤ h.height) rs × Among h rs

insert-IsTop :
    (r : BlockRow) (l rs : List BlockRow) → IsTop l rs → IsTop (insert_row height_desc r l) (r ∷ rs)
insert-IsTop r [] rs h = rw h ((omega arith, tt), inl refl)
insert-IsTop r (q ∷ l) rs (above, here) = elim (Bool-cases (ltb_ℤ q.height r.height)) [
  | inl y ↦ rw y (
    (ground arith, All-map _ (λ x. x.height ≤ℤ r.height) rs (λ x k. ground arith) above),
    inl refl,
  )
  | inr n ↦ rw n ((ground arith, above), inr here)
]

pub order_by-IsTop : (rs : List BlockRow) → IsTop (order_by height_desc rs) rs
order_by-IsTop [] = refl
order_by-IsTop (r ∷ rs) = insert-IsTop r (order_by height_desc rs) rs (order_by-IsTop rs)

-- The block has what the row has.
abbrev pub Shows : BlockRow → Block → Type 0
Shows r b =
    (b.hash ≡ r.hash)
    × (b.height ≡ r.height)
    × (b.time ≡ r.time)
    × (b.total_txs ≡ r.total_txs)
    × (b.num_txs ≡ r.num_txs)

-- The answer is the block of a stored row, field for field, and no stored row is higher; an error
-- means that there is none, or is the driver's.
abbrev pub IsHighest : Error → List BlockRow → Result Block → Type 0
IsHighest failure rs (ok b) =
    (r : BlockRow) × Among r rs × Shows r b × All (λ q. q.height ≤ℤ r.height) rs
IsHighest failure rs (err e) = (rs ≡ []) ⊎ (e ≡ failure)

abbrev driver_failure : Error
driver_failure = wrap "failed to get highest block" driver

module _ (D : Database) (L : IsLawful D) where
  open D use {State, tables}

  first-IsHighest :
      (o : Option (List BlockRow)) (l rs : List BlockRow)
      → IsTop l rs
      → Answers o (take 1 l)
      → IsHighest driver_failure rs (found_highest D (then_nodes o first_node))
  first-IsHighest none l rs h k = inr refl
  first-IsHighest (some rows) [] rs h k = rw k (inl h)
  first-IsHighest (some rows) (q ∷ l) rs h k = rw k (q, h.1, (refl, refl, refl, refl, refl), h.0)

  -- On a lawful database, `GetHighestBlock` of the repository returns the block of a stored row, field
  -- for field, and no stored row is higher; it returns an error only if no block is stored or the driver fails.
  pub get_highest_block-IsHighest :
      (s : State) → IsHighest driver_failure (tables s).blocks (get_highest_block D s)
  unfolding get_highest_block
  get_highest_block-IsHighest s =
      first-IsHighest (D.select_blocks_desc 0 (some 1) s) (order_by height_desc (tables s).blocks)
        (tables s).blocks (order_by-IsTop (tables s).blocks)
        (L.select_blocks_desc-Answers 0 (some 1) s)
