-- ===== src/EventProcessor/Workers/Safety.antt =====
-- What holds under every interleaving of the workers' statements and the broker's deliveries.
use gno_land_block_indexer.Prelude.{
  refl, inl, inr, Bool, true, false, String, Option, List, [], ◌∷◌, ◌++◌, ltb, All, Bool-cases,
  if◌then◌else◌,
}
use gno_land_block_indexer.Model.{Block, BlockWithTransactions}
use gno_land_block_indexer.Ent.Database.{Database, IsLawful}
use gno_land_block_indexer.Ent.WellFormed.{WellFormed}
use gno_land_block_indexer.EventProcessor.Process.Redelivery.{HasBlock}
use gno_land_block_indexer.EventProcessor.Workers.{
  Move, deliver, work, leave, cancel, close_work, Pool, start, move_alive, move, schedule,
  num_workers,
}
use gno_land_block_indexer.EventProcessor.Workers.Begun.{
  begins_same, AllDistinct, begins_by, begins_by_same, begun,
}
use gno_land_block_indexer.EventProcessor.Workers.Invariant.{
  IsSafe, elsewhere, branch-IsSafe, go_on-IsSafe, leave_from-IsSafe, deliver_to-IsSafe,
}

module _ (D : Database) (L : IsLawful D) (unmarshal : String → Option BlockWithTransactions) where
  open D use {State, tables}

  move_alive-IsSafe :
      (bs : List Block) (p : Pool D unmarshal) (m : Move)
      → IsSafe D L unmarshal bs p
      → let q = move_alive D unmarshal p m in
        IsSafe D L unmarshal (begins_by D unmarshal m p q ++ bs) q
  move_alive-IsSafe bs p (deliver bytes) h = deliver_to-IsSafe D L unmarshal bs p p.closed bytes h
  move_alive-IsSafe bs p (work i now) h = elim (Bool-cases (ltb i num_workers)) [
    | inl y ↦ rw y (go_on-IsSafe D L unmarshal bs p i now (p.workers i) refl h (h.calm i))
    | inr n ↦ rw n (rw (begins_same (p.workers i)) h)
  ]
  move_alive-IsSafe bs p (leave i) h =
      branch-IsSafe D L unmarshal bs (ltb i num_workers) _ p
        (leave_from-IsSafe D L unmarshal bs p i (p.workers i) h) h
  move_alive-IsSafe bs p cancel h =
      elsewhere D L unmarshal bs p p.queue p.workers true p.closed p.crashed h h.calm
  move_alive-IsSafe bs p close_work h =
      branch-IsSafe D L unmarshal bs p.done (record p { closed = true }) p
        (elsewhere D L unmarshal bs p p.queue p.workers p.done true p.crashed h h.calm) h

  unless_crashed :
      (bs : List Block) (p : Pool D unmarshal) (m : Move) (crashed : Bool)
      → IsSafe D L unmarshal bs p
      → let q = if crashed then p else move_alive D unmarshal p m in
        IsSafe D L unmarshal (begins_by D unmarshal m p q ++ bs) q
  unless_crashed bs p m true h = rw (begins_by_same D unmarshal m p) h
  unless_crashed bs p m false h = move_alive-IsSafe bs p m h

  move-IsSafe :
      (bs : List Block) (p : Pool D unmarshal) (m : Move)
      → IsSafe D L unmarshal bs p
      → let q = move D unmarshal p m in IsSafe D L unmarshal (begins_by D unmarshal m p q ++ bs) q
  unfolding move
  move-IsSafe bs p m h = unless_crashed bs p m p.crashed h

  scheduled :
      (ms : List Move) (bs : List Block) (p : Pool D unmarshal)
      → IsSafe D L unmarshal bs p
      → IsSafe D L unmarshal (begun D unmarshal bs p ms) (schedule D unmarshal p ms)
  unfolding schedule
  scheduled [] bs p h = h
  scheduled (m ∷ ms) bs p h =
      let q = move D unmarshal p m in
      scheduled ms (begins_by D unmarshal m p q ++ bs) q (move-IsSafe bs p m h)

  -- On a lawful database with well-formed tables, under every interleaving of the five workers'
  -- statements, the deliveries of the broker and the end of the context: no two of the times at which
  -- some worker begins to process a block's transactions are for blocks of one height, each of these
  -- blocks is stored, and the tables stay well formed.
  pub schedule-AllDistinct :
      (ms : List Move) (s : State)
      → WellFormed (tables s)
      → let bs = begun D unmarshal [] (start D unmarshal s) ms in
        let p = schedule D unmarshal (start D unmarshal s) ms in
        AllDistinct bs × All (λ b. HasBlock b.height (tables p.db)) bs × WellFormed (tables p.db)
  schedule-AllDistinct ms s w =
      let h =
        scheduled ms [] (start D unmarshal s)
          (record { well_formed = w; stored = tt; distinct = tt; calm = λ i. tt }) in
      (h.distinct, h.stored, h.well_formed)
