-- ===== src/EventProcessor/Workers.antt =====
-- `SubscribeAndHandle` and its five `messageWorker`s around the channel `workCh`, over one database.
-- A schedule chooses who moves next; between two statements of one worker others may run theirs.
pub mod Begun
pub mod Invariant
pub mod Safety
pub mod Others
pub mod Race
use gno_land_block_indexer.Prelude.{
  ℕ, zero, suc, Bool, true, false, String, Option, none, some, List, [], ◌∷◌, ltb, ◌==◌,
  if◌then◌else◌,
}
use gno_land_block_indexer.Model.{Time, Block, Transaction, BlockWithTransactions}
use gno_land_block_indexer.Ent.Error.{Error, Result, ok, err, panicked}
use gno_land_block_indexer.Ent.Program.{Program, ret, step}
use gno_land_block_indexer.Ent.Database.{Database}
use gno_land_block_indexer.Repository.Blocks.{add_block}
use gno_land_block_indexer.EventProcessor.Queue.{handle_message}
use gno_land_block_indexer.EventProcessor.Statements.{process_stored}

abbrev pub num_workers : ℕ
num_workers = 5

-- A worker waits at its `select`, has returned, is about to run `AddBlock`, or runs what follows
-- it for a block.
pub data Worker (S : Type 0) : Type 0 where
  idle stopped : Worker S
  adding : BlockWithTransactions → Worker S
  running : Block → Program S (Unit {0}) → Worker S

abbrev pub update {ℓ} : {A : Type ℓ} → (ℕ → A) → ℕ → A → ℕ → A
update f i a j = if i == j then a else f j

-- The broker calls the handler with a message; worker `i` goes on, at some time; it takes the `Done`
-- case of its `select`, once the context is done; the context ends; `SubscribeAndHandle` then closes the
-- channel and returns.
pub data Move : Type 0 where
  deliver : String → Move
  work : ℕ → Time → Move
  leave : ℕ → Move
  cancel close_work : Move

module _ (D : Database) (unmarshal : String → Option BlockWithTransactions) where
  open D use {State}

  -- `done` is the context, `closed` the channel; a panic of any goroutine ends the process.
  pub record Pool : Type 0 where
    pub db : State
    pub queue : List BlockWithTransactions
    pub workers : ℕ → Worker State
    pub done : Bool
    pub closed : Bool
    pub crashed : Bool

  abbrev pub start : State → Pool
  start s = record {
    db = s;
    queue = [];
    workers = λ i. idle;
    done = false;
    closed = false;
    crashed = false;
  }

  abbrev set_worker : Pool → ℕ → Worker State → Pool
  set_worker p i w = record p { workers = update p.workers i w }

  -- A panic of the handler ends the process, too.
  abbrev handled : Pool → Result (Unit {0}) × List BlockWithTransactions → Pool
  handled p (err panicked, q) = record p { crashed = true }
  handled p (_, q) = record p { queue = q }

  -- A send on a closed channel panics.
  abbrev handled_closed : Pool → Option BlockWithTransactions → Pool
  handled_closed p none = p
  handled_closed p (some m) = record p { crashed = true }

  abbrev deliver_to : Pool → Bool → String → Pool
  deliver_to p false bytes = handled p (handle_message unmarshal p.queue bytes)
  deliver_to p true bytes = handled_closed p (unmarshal bytes)

  -- An open channel that is empty keeps the worker waiting.
  abbrev take_next : Pool → ℕ → List BlockWithTransactions → Pool
  take_next p i [] = if p.closed then set_worker p i stopped else p
  take_next p i (m ∷ rest) = record p { queue = rest; workers = update p.workers i (adding m) }

  -- After `AddBlock`; an error is only logged.
  abbrev after_add : Pool → ℕ → Time → Block → List Transaction → Result Bool × State → Pool
  after_add p i now b txs (ok true, s) = record p { db = s; workers = update p.workers i idle }
  after_add p i now b txs (ok false, s) = record p {
    db = s;
    workers = update p.workers i (running b (process_stored D now b txs));
  }
  after_add p i now b txs (err e, s) = record p { db = s; workers = update p.workers i idle }

  -- `AddBlock` reads through the pointer, which is nil if the message had no block.
  abbrev add_next : Pool → ℕ → Time → Option Block → List Transaction → Pool
  add_next p i now none txs = record p { crashed = true }
  add_next p i now (some b) txs = after_add p i now b txs (add_block D now b p.db)

  abbrev go_on : Pool → ℕ → Time → Worker State → Pool
  go_on p i now idle = take_next p i p.queue
  go_on p i now stopped = p
  go_on p i now (adding m) = add_next p i now m.block m.transactions
  go_on p i now (running b (ret r)) = set_worker p i idle
  go_on p i now (running b (step next rest)) = record p {
    db = next p.db;
    workers = update p.workers i (running b (rest p.db));
  }

  abbrev leave_from : Pool → ℕ → Worker State → Pool
  leave_from p i idle = if p.done then set_worker p i stopped else p
  leave_from p i _ = p

  abbrev move_alive : Pool → Move → Pool
  move_alive p (deliver bytes) = deliver_to p p.closed bytes
  move_alive p (work i now) = if ltb i num_workers then go_on p i now (p.workers i) else p
  move_alive p (leave i) = if ltb i num_workers then leave_from p i (p.workers i) else p
  move_alive p cancel = record p { done = true }
  move_alive p close_work = if p.done then record p { closed = true } else p

  unfoldable pub move : Pool → Move → Pool
  move p m = if p.crashed then p else move_alive p m

  unfoldable pub schedule : Pool → List Move → Pool
  schedule p [] = p
  schedule p (m ∷ ms) = schedule (move p m) ms
