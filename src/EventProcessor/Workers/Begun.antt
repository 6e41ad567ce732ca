-- ===== src/EventProcessor/Workers/Begun.antt =====
-- The blocks whose processing the workers begin under a sequence of moves, seen from what each worker is
-- before and after a move.
use gno_land_block_indexer.Prelude.{◌≡◌, ◌≢◌, refl, String, Option, List, [], ◌∷◌, ◌++◌, All}
use gno_land_block_indexer.Model.{Block, BlockWithTransactions}
use gno_land_block_indexer.Ent.Database.{Database}
use gno_land_block_indexer.EventProcessor.Workers.{
  Worker, idle, stopped, adding, running, Move, deliver, work, leave, cancel, close_work, Pool,
  move,
}

abbrev pub now_running : {S : Type 0} → Worker S → List Block
now_running idle = []
now_running stopped = []
now_running (adding m) = []
now_running (running b p) = b ∷ []

-- The block whose processing a worker begins when it goes on: it was before `AddBlock`, and runs what
-- follows it.
abbrev pub begins : {S : Type 0} → Worker S → Worker S → List Block
begins idle w = []
begins stopped w = []
begins (adding m) w = now_running w
begins (running b p) w = []

pub begins_same : {S : Type 0} (w : Worker S) → begins w w ≡ []
begins_same idle = refl
begins_same stopped = refl
begins_same (adding m) = refl
begins_same (running b p) = refl

-- No two of the blocks have the same height.
abbrev pub AllDistinct : List Block → Type 0
AllDistinct [] = Unit
AllDistinct (b ∷ bs) = All (λ c. c.height ≢ b.height) bs × AllDistinct bs

module _ (D : Database) (unmarshal : String → Option BlockWithTransactions) where
  open D use {State}

  -- The block whose processing begins with a move, which leads from the one pool to the other.
  abbrev pub begins_by : Move → Pool D unmarshal → Pool D unmarshal → List Block
  begins_by (work i now) p q = begins (p.workers i) (q.workers i)
  begins_by m p q = []

  pub begins_by_same : (m : Move) (p : Pool D unmarshal) → begins_by m p p ≡ []
  begins_by_same (deliver bytes) p = refl
  begins_by_same (work i now) p = begins_same (p.workers i)
  begins_by_same (leave i) p = refl
  begins_by_same cancel p = refl
  begins_by_same close_work p = refl

  -- The blocks whose processing the workers begin while the moves are made, the last one first.
  abbrev pub begun : List Block → Pool D unmarshal → List Move → List Block
  begun bs p [] = bs
  begun bs p (m ∷ ms) = let q = move D unmarshal p m in begun (begins_by m p q ++ bs) q ms
