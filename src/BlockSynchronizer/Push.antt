-- ===== src/BlockSynchronizer/Push.antt =====
-- `SubscribeAndPush` and its ten `blockWorker`s around the buffered channel `workCh`. The
-- scheduler chooses who moves; a move that finds nothing to do changes nothing.
pub mod Laws
use gno_land_block_indexer.Prelude.{
  ℕ, zero, suc, ◌+◌, Bool, true, false, String, Option, none, some, List, [], ◌∷◌, ◌++◌, length,
  ltb, if◌then◌else◌,
}
use gno_land_block_indexer.Model.{Block}
use gno_land_block_indexer.Ent.Error.{Result, ok, err, cancelled}

-- `make(chan model.Block, 1000)`
abbrev pub work_capacity : ℕ
work_capacity = 1000

-- `incoming` is what the subscription has sent on `ch`; `taken` is what the workers have received.
pub record Pool : Type 0 where
  pub incoming : List Block
  pub work : List Block
  pub dropped : List Block
  pub taken : List Block
  pub result : Option (Result (Unit {0}))

abbrev pub start : List Block → Pool
start blocks = record { incoming = blocks; work = []; dropped = []; taken = []; result = none }

-- The inner `select`: the block goes to the workers, or is dropped if their channel is full.
abbrev hand_over : Pool → Block → List Block → Pool
hand_over p b rest =
    if ltb (length p.work) work_capacity
    then record p { incoming = rest; work = p.work ++ b ∷ [] }
    else record p { incoming = rest; dropped = p.dropped ++ b ∷ [] }

pub data Move : Type 0 where
  receive : Move
  close_incoming : Move
  context_done : Move
  work : Move

-- The outer loop ends when it has a result.
abbrev receive_from : Pool → List Block → Pool
receive_from p [] = p
receive_from p (b ∷ rest) = hand_over p b rest

abbrev close_at : Pool → List Block → Pool
close_at p [] = record p { result = some (ok tt) }
close_at p (b ∷ rest) = p

abbrev work_from : Pool → List Block → Pool
work_from p [] = p
work_from p (b ∷ rest) = record p { work = rest; taken = p.taken ++ b ∷ [] }

abbrev main_move : Pool → Option (Result (Unit {0})) → Move → Pool
main_move p none receive = receive_from p p.incoming
main_move p none close_incoming = close_at p p.incoming
main_move p none context_done = record p { result = some (err cancelled) }
main_move p _ work = work_from p p.work
main_move p (some _) _ = p

-- A worker may still drain a closed channel.
unfoldable pub move : Pool → Move → Pool
move p m = main_move p p.result m

unfoldable pub schedule : Pool → List Move → Pool
schedule p [] = p
schedule p (m ∷ ms) = schedule (move p m) ms
