-- ===== src/Tests/Workers.antt =====
-- Two workers of the event processor on one database.
use gno_land_block_indexer.Prelude.{String, Option, some, List, [], ◌∷◌, All}
use gno_land_block_indexer.Model.{BlockWithTransactions}
use gno_land_block_indexer.Ent.Memory.{memory, memory-IsLawful}
use gno_land_block_indexer.Ent.WellFormed.{WellFormed}
use gno_land_block_indexer.EventProcessor.Process.Redelivery.{HasBlock}
use gno_land_block_indexer.EventProcessor.Workers.{
  Move, deliver, work, leave, cancel, close_work, start, schedule,
}
use gno_land_block_indexer.EventProcessor.Workers.Safety.{schedule-AllDistinct}
use gno_land_block_indexer.EventProcessor.Workers.Begun.{AllDistinct, begun}
use gno_land_block_indexer.Tests.Data.{no_tables-WellFormed, fresh, message}

abbrev unmarshal : String → Option BlockWithTransactions
unmarshal bytes = some message

-- The same block comes twice, and two workers take it; then the context ends.
abbrev moves : List Move
moves =
    deliver "a"
    ∷ deliver "a"
    ∷ work 0 1
    ∷ work 1 1
    ∷ work 1 2
    ∷ work 0 2
    ∷ work 1 3
    ∷ work 1 4
    ∷ cancel
    ∷ deliver "a"
    ∷ close_work
    ∷ leave 0
    ∷ []

schedule-AllDistinct_example :
    let bs = begun memory unmarshal [] (start memory unmarshal fresh) moves in
    let p = schedule memory unmarshal (start memory unmarshal fresh) moves in
    AllDistinct bs × All (λ b. HasBlock b.height p.db.tables) bs × WellFormed p.db.tables
schedule-AllDistinct_example =
    schedule-AllDistinct memory memory-IsLawful unmarshal moves fresh no_tables-WellFormed
