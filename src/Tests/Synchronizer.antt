-- ===== src/Tests/Synchronizer.antt =====
-- The block synchronizer against a server with three blocks.
use gno_land_block_indexer.Prelude.{
  ◌≡◌, ◌≢◌, refl, ◌+◌, ◌≤◌, Bool, true, false, ◌&&◌, String, Option, none, some, List, [], ◌∷◌,
  ◌++◌, ℤ, pos, ltb_ℤ, ltb_ℤ→lt, ◌<ℤ◌, keep, length, replicate, All, inl, inr, Bool-cases,
  if◌then◌else◌, arith, ℕ, sym, ◌⊎◌, ◌≤ℤ◌, eq_ℤ, Among,
}
use gno_land_block_indexer.Model.{Block, BlockWithTransactions}
use gno_land_block_indexer.Ent.Error.{Result, ok}
use gno_land_block_indexer.Ent.Post.{Post}
use gno_land_block_indexer.Ent.Memory.{
  Server, memory, memory-IsLawful, steady, steady-IsLawful, steady-IsReliable,
}
use gno_land_block_indexer.BlockSynchronizer.Poll.{
  Graphql, RawBlock, RawTransaction, HonoursBlocks, HonoursTransactions, poll_blocks,
}
use gno_land_block_indexer.BlockSynchronizer.Poll.Laws.{InWindow, poll_blocks-InWindow}
use gno_land_block_indexer.BlockSynchronizer.Bus.{Bus, Delivers}
use gno_land_block_indexer.BlockSynchronizer.History.{
  save_restoring_history, get_not_sequential_block_num,
}
use gno_land_block_indexer.BlockSynchronizer.History.Laws.{
  StartsAt, get_not_sequential_block_num-save,
}
use gno_land_block_indexer.BlockSynchronizer.Restore.{
  World, received, restore_from, restore_missing_block_and_transactions,
  process_block_with_transactions,
}
use gno_land_block_indexer.BlockSynchronizer.Restore.Laws.{IsMatched, Sends}
use gno_land_block_indexer.BlockSynchronizer.Restore.Windows.{restore_from-Sends}
use gno_land_block_indexer.BlockSynchronizer.Restore.Termination.{restore_from-ends}
use gno_land_block_indexer.BlockSynchronizer.Restore.Delivery.{Accepts}
use gno_land_block_indexer.BlockSynchronizer.Restore.Round.{Serves, BlockSent}
use gno_land_block_indexer.BlockSynchronizer.Restore.Completeness.{restore_from-BlockSent}
use gno_land_block_indexer.BlockSynchronizer.Restore.Resume.{restore_missing-Sends}
use gno_land_block_indexer.BlockSynchronizer.Restore.Single.{SentNext, process_block-SentNext}
use gno_land_block_indexer.Tests.Data.{seventh_block, fresh}

-- A bus that takes every message.
abbrev bus : Bus
bus = record {
  State = List (String × String);
  sent = λ s. s;
  publish = λ topic m s. (true, s ++ (topic, m) ∷ []);
}

bus-Delivers : Delivers bus
bus-Delivers topic m s = refl

abbrev raw_block : ℕ → RawBlock
raw_block h = record { hash = "b"; height = pos h; time = ""; total_txs = pos 0; num_txs = pos 0 }

abbrev between : ℤ → ℤ → RawBlock → Bool
between gt lt r = ltb_ℤ gt r.height && ltb_ℤ r.height lt

abbrev server : Graphql
server = record {
  run_blocks = λ gt lt. some (keep (between gt lt) (raw_block 1 ∷ raw_block 2 ∷ raw_block 3 ∷ []));
  run_transactions = λ gt lt. some [];
  parse_time = λ layout text. none;
}

kept_between :
    (gt lt : ℤ) (rs : List RawBlock)
    → All (λ r. (gt <ℤ r.height) × (r.height <ℤ lt)) (keep (between gt lt) rs)
kept_between gt lt [] = tt
kept_between gt lt (r ∷ rs) = elim (Bool-cases (between gt lt r)) [
  | inl y ↦ rw y ((ground arith, ground arith), kept_between gt lt rs)
  | inr n ↦ rw n (kept_between gt lt rs)
]

server-HonoursBlocks : HonoursBlocks server
server-HonoursBlocks gt lt rs e =
    let same : rs ≡ keep (between gt lt) (raw_block 1 ∷ raw_block 2 ∷ raw_block 3 ∷ []) = cc in
    rw same (kept_between gt lt (raw_block 1 ∷ raw_block 2 ∷ raw_block 3 ∷ []))

server-HonoursTransactions : HonoursTransactions server
server-HonoursTransactions gt lt [] e = tt
server-HonoursTransactions gt lt (r ∷ rs) e = cc

abbrev marshal : BlockWithTransactions → Option String
marshal m = some "text"

abbrev world : World memory bus server marshal
world = record { db = fresh; bus = [] }

abbrev second_block : Block
second_block = record { hash = "b"; height = pos 2; time = 0; total_txs = pos 0; num_txs = pos 0 }

polls_second : poll_blocks server (pos 1) (pos 1) ≡ ok (second_block ∷ [])
unfolding poll_blocks gno_land_block_indexer.BlockSynchronizer.Poll.block_of
    gno_land_block_indexer.Prelude.add64 gno_land_block_indexer.Prelude.wrap64
    gno_land_block_indexer.Prelude.◌+ℤ◌
polls_second = refl

-- A poll at offset 1 leaves the block of height 1 out.
poll_blocks-InWindow_example : All (λ b. InWindow (pos 1) 1 b.height) (second_block ∷ [])
poll_blocks-InWindow_example =
    poll_blocks-InWindow server (pos 1) 1 (second_block ∷ []) server-HonoursBlocks
      ((omega arith, omega arith), omega arith) polls_second

process_block-SentNext_example :
    Post
      (process_block_with_transactions memory bus server marshal seventh_block world)
      (λ _ w. SentNext memory bus bus-Delivers server marshal seventh_block world w)
      (λ w. w.bus ≡ [])
process_block-SentNext_example =
    process_block-SentNext memory bus bus-Delivers server marshal seventh_block world
      server-HonoursTransactions ((omega arith, omega arith), omega arith)

restore_from-Sends_example :
    Sends memory bus bus-Delivers server marshal
      (IsMatched (pos 1))
      world
      (restore_from memory bus server marshal 3 (pos 1) (pos 3) world).1
restore_from-Sends_example =
    restore_from-Sends memory bus bus-Delivers server marshal 3 (pos 1) (pos 1) (pos 3) world
      server-HonoursBlocks ((omega arith, omega arith), omega arith) (omega arith, omega arith)
      (omega arith)

restore_from-ends_example :
    (restore_from memory bus server marshal 3 (pos 1) (pos 150) world).0 ≢ none
restore_from-ends_example =
    restore_from-ends memory bus server marshal 2 (pos 1) (pos 150) world
      ((omega arith, omega arith), omega arith) (omega arith, omega arith) (omega arith)

abbrev three_blocks : List RawBlock
three_blocks = raw_block 1 ∷ raw_block 2 ∷ raw_block 3 ∷ []

server-Serves : Serves server three_blocks []
server-Serves = record { blocks_answer = λ gt lt. refl; transactions_answer = λ gt lt. refl }

bus-Accepts : Accepts bus
bus-Accepts topic m s = refl

abbrev encode : BlockWithTransactions → String
encode m = "text"

-- A height above 1 and at most 3.
two_or_three : (h : ℤ) → pos 1 <ℤ h → h ≤ℤ pos 3 → (h ≡ pos 2) ⊎ (h ≡ pos 3)
two_or_three h above below = elim (Bool-cases (eq_ℤ h (pos 2))) [
  | inl y ↦ inl (ground arith)
  | inr n ↦ inr (ground arith)
]

block_at :
    (h : ℤ) → (h ≡ pos 2) ⊎ (h ≡ pos 3) → (q : RawBlock) × Among q three_blocks × (q.height ≡ h)
block_at h (inl e) = (raw_block 2, inr (inl refl), sym e)
block_at h (inr e) = (raw_block 3, inr (inr (inl refl)), sym e)

abbrev steady_world : World steady bus server marshal
steady_world = record { db = fresh; bus = [] }

restore_from-BlockSent_example :
    let out = restore_from steady bus server marshal 2 (pos 1) (pos 3) steady_world in
    (out.0 ≡ some (ok tt))
    × All
        (λ r.
          BlockSent steady steady-IsLawful steady-IsReliable bus bus-Delivers bus-Accepts server
            encode three_blocks [] server-Serves r out.1)
        (raw_block 2 ∷ raw_block 3 ∷ [])
restore_from-BlockSent_example =
    restore_from-BlockSent steady steady-IsLawful steady-IsReliable bus bus-Delivers bus-Accepts
      server encode three_blocks [] server-Serves 1 (pos 1) (pos 3) steady_world
      ((omega arith, omega arith), omega arith) (omega arith, omega arith) (omega arith)
      (λ h above below. block_at h (two_or_three h above below))

restore_missing-Sends_example :
    Sends memory bus bus-Delivers server marshal
      (IsMatched (pos 1))
      world
      (restore_missing_block_and_transactions memory bus server marshal 3
        (received seventh_block)
        world).1
restore_missing-Sends_example =
    restore_missing-Sends memory memory-IsLawful bus bus-Delivers server marshal 3
      (received seventh_block) world server-HonoursBlocks ((omega arith, omega arith), omega arith)
      refl

abbrev saved : Result (Unit {0}) × Server
saved = save_restoring_history memory (pos 101) (pos 201) fresh

saves : saved ≡ (ok tt, saved.1)
unfolding save_restoring_history
saves = refl

get_not_sequential_block_num-save_example :
    StartsAt (pos 101) (get_not_sequential_block_num memory (pos 0) saved.1)
get_not_sequential_block_num-save_example =
    get_not_sequential_block_num-save memory memory-IsLawful (pos 101) (pos 201) (pos 0) fresh
      saved.1 saves
