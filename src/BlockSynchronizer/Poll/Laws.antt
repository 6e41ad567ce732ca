-- ===== src/BlockSynchronizer/Poll/Laws.antt =====
-- Which heights the polls return.
use gno_land_block_indexer.Prelude.{
  ℕ, ◌+◌, ◌^◌, ◌<◌, ◌≡◌, refl, ◌∙◌, Option, none, some, List, map, ℤ, pos, pos_part, ◌+ℤ◌, ◌<ℤ◌,
  add64, wrap64_of_IsInt64, IsInt64, All, All-mapped, arith, +ℤ_parts, eq_of_parts,
}
use gno_land_block_indexer.Model.{Block, Transaction}
use gno_land_block_indexer.Ent.Error.{ok}
use gno_land_block_indexer.BlockSynchronizer.Poll.{
  Graphql, HonoursBlocks, HonoursTransactions, upper_bound, block_of, transaction_of, polled,
  poll_blocks, poll_transactions,
}

-- The offset and the numbers that are added to it stay in 64 bits.
abbrev pub HasRoom : ℤ → ℕ → Type 0
HasRoom i n = IsInt64 i × (pos_part i + n < 2 ^ 63)

pub add64_of_HasRoom : (i : ℤ) (n : ℕ) → HasRoom i n → add64 i (pos n) ≡ i +ℤ pos n
unfolding add64
add64_of_HasRoom i n h = wrap64_of_IsInt64 (i +ℤ pos n) (ground (arith, +ℤ_parts i (pos n)))

pub upper_bound-eq : (i : ℤ) (n : ℕ) → HasRoom i (n + 1) → upper_bound i (pos n) ≡ i +ℤ pos (n + 1)
upper_bound-eq i n h =
    let first : add64 i (pos n) ≡ i +ℤ pos n = add64_of_HasRoom i n (ground arith) in
    rw first (
      add64_of_HasRoom (i +ℤ pos n) 1 (ground (arith, +ℤ_parts i (pos n)))
      ∙ eq_of_parts _ _ (
          ground
            (arith, +ℤ_parts (i +ℤ pos n) (pos 1), +ℤ_parts i (pos n), +ℤ_parts i (pos (n + 1)))))

-- The height lies in the window of `n` heights behind `i`.
abbrev pub InWindow : ℤ → ℕ → ℤ → Type 0
InWindow i n h = (i <ℤ h) × (h <ℤ i +ℤ pos (n + 1))

polled-All :
    {R A : Type 0} (f : R → A) (P : R → Type 0) (Q : A → Type 0) (o : Option (List R))
    (out : List A)
    → ((r : R) → P r → Q (f r))
    → ((rs : List R) → o ≡ some rs → All P rs)
    → polled f o ≡ ok out
    → All Q out
polled-All f P Q none out g h e = cc
polled-All f P Q (some rs) out g h e =
    let same : out ≡ map f rs = ground arith in rw same (All-mapped f P Q rs g (h rs refl))

module _ (G : Graphql) where
  -- If the server keeps to the bounds of a query and the offset leaves room in 64 bits, then the polled
  -- blocks have heights above the offset, and at most the offset and the limit.
  pub poll_blocks-InWindow :
      (i : ℤ) (n : ℕ) (bs : List Block)
      → HonoursBlocks G
      → HasRoom i (n + 1)
      → poll_blocks G i (pos n) ≡ ok bs
      → All (λ b. InWindow i n b.height) bs
  unfolding poll_blocks block_of
  poll_blocks-InWindow i n bs honours room e =
      polled-All (block_of G) (λ r. InWindow i n r.height) (λ b. InWindow i n b.height)
        (G.run_blocks i (upper_bound i (pos n))) bs (λ r h. h)
        (λ rs k. rw (upper_bound-eq i n room) at (honours i (upper_bound i (pos n)) rs k)) e

  -- The polled transactions are those of the heights behind the offset.
  pub poll_transactions-InWindow :
      (i : ℤ) (n : ℕ) (txs : List Transaction)
      → HonoursTransactions G
      → HasRoom i (n + 1)
      → poll_transactions G i (pos n) ≡ ok txs
      → All (λ tx. InWindow i n tx.block_height) txs
  unfolding poll_transactions transaction_of
  poll_transactions-InWindow i n txs honours room e =
      polled-All transaction_of (λ r. InWindow i n r.block_height)
        (λ tx. InWindow i n tx.block_height) (G.run_transactions i (upper_bound i (pos n))) txs
        (λ r h. h)
        (λ rs k. rw (upper_bound-eq i n room) at (honours i (upper_bound i (pos n)) rs k)) e
