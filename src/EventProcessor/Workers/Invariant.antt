-- ===== src/EventProcessor/Workers/Invariant.antt =====
-- What each move of a worker and of the broker keeps.
use gno_land_block_indexer.Prelude.{
  ℕ, ◌≡◌, ◌≢◌, refl, inl, inr, Bool, true, false, String, Option, none, some, List, [], ◌∷◌, ◌++◌,
  ◌==◌, All, All-map, ℤ, arith, Bool-cases, if◌then◌else◌,
}
use gno_land_block_indexer.Model.{Time, Block, Transaction, BlockWithTransactions}
use gno_land_block_indexer.Ent.Error.{Result, ok, err, panicked}
use gno_land_block_indexer.Ent.Post.{Post}
use gno_land_block_indexer.Ent.Program.{ret, step}
use gno_land_block_indexer.Ent.Tables.{Tables, has_block}
use gno_land_block_indexer.Ent.Database.{Database, IsLawful}
use gno_land_block_indexer.Ent.WellFormed.{WellFormed}
use gno_land_block_indexer.Repository.Blocks.{add_block, block_row}
use gno_land_block_indexer.Repository.Blocks.Laws.{Added, add_block-Added}
use gno_land_block_indexer.EventProcessor.Queue.{handle_message}
use gno_land_block_indexer.EventProcessor.Process.Invariant.{
  WellFormed-IsClosed, add_transactions-WellFormed, add_block-WellFormed,
}
use gno_land_block_indexer.EventProcessor.Process.Redelivery.{
  HasBlock, HasBlock-IsClosed, add_transactions-stored, has_block-append, has_block-append_self,
}
use gno_land_block_indexer.EventProcessor.Statements.{process_stored}
use gno_land_block_indexer.EventProcessor.Statements.Keeps.{StepsKeep, process_stored-StepsKeep}
use gno_land_block_indexer.EventProcessor.Workers.{
  Worker, idle, stopped, adding, running, update, Pool, handled, handled_closed, deliver_to,
  take_next, after_add, add_next, go_on, leave_from, set_worker,
}
use gno_land_block_indexer.EventProcessor.Workers.Begun.{now_running, begins, AllDistinct}

module _ (D : Database) (L : IsLawful D) (unmarshal : String → Option BlockWithTransactions) where
  open D use {State, tables}

  -- Whatever the worker does next keeps the tables well formed and the blocks stored.
  abbrev pub IsCalm : Worker State → Type 0
  IsCalm idle = Unit
  IsCalm stopped = Unit
  IsCalm (adding m) = Unit
  IsCalm (running b p) = StepsKeep D WellFormed p × ((h : ℤ) → StepsKeep D (HasBlock h) p)

  process_stored-IsCalm :
      (now : Time) (b : Block) (txs : List Transaction)
      → IsCalm (running b (process_stored D now b txs))
  process_stored-IsCalm now b txs = (
    process_stored-StepsKeep D L WellFormed WellFormed-IsClosed now b txs
        (add_transactions-WellFormed D L now b txs),
    λ h.
        process_stored-StepsKeep D L (HasBlock h) (HasBlock-IsClosed h) now b txs
          (add_transactions-stored D L now h b.height txs),
  )

  update-IsCalm :
      (f : ℕ → Worker State) (i : ℕ) (w : Worker State)
      → ((j : ℕ) → IsCalm (f j))
      → IsCalm w
      → (j : ℕ) → IsCalm (update f i w j)
  update-IsCalm f i w h k j = elim (Bool-cases (i == j)) [ inl y ↦ rw y k | inr n ↦ rw n (h j) ]

  abbrev pub AllStored : List Block → State → Type 0
  AllStored bs s = All (λ b. HasBlock b.height (tables s)) bs

  abbrev pub Pools : Type 0
  Pools = Pool D unmarshal

  -- `begun` are the blocks whose processing has begun, the last one first.
  pub record IsSafe (begun : List Block) (p : Pools) : Type 0 where
    pub well_formed : WellFormed (tables p.db)
    pub stored : AllStored begun p.db
    pub distinct : AllDistinct begun
    pub calm : (i : ℕ) → IsCalm (p.workers i)

  -- A move that leaves the database alone.
  pub elsewhere :
      (bs : List Block) (p : Pools) (queue : List BlockWithTransactions)
      (workers : ℕ → Worker State) (done closed crashed : Bool)
      → IsSafe bs p
      → ((i : ℕ) → IsCalm (workers i))
      → IsSafe bs (record p {
        queue = queue;
        workers = workers;
        done = done;
        closed = closed;
        crashed = crashed;
      })
  elsewhere bs p queue workers done closed crashed h c = record {
    well_formed = h.well_formed;
    stored = h.stored;
    distinct = h.distinct;
    calm = c;
  }

  -- A statement that keeps the invariant of the tables and the blocks.
  pub stated :
      (bs : List Block) (p : Pools) (s : State) (i : ℕ) (w : Worker State)
      → IsSafe bs p
      → (WellFormed (tables p.db) → WellFormed (tables s))
      → ((h : ℤ) → HasBlock h (tables p.db) → HasBlock h (tables s))
      → IsCalm w
      → IsSafe bs (record p { db = s; workers = update p.workers i w })
  stated bs p s i w h keeps stays c = record {
    well_formed = keeps h.well_formed;
    stored = All-map _ _ bs (λ b k. stays b.height k) h.stored;
    distinct = h.distinct;
    calm = update-IsCalm p.workers i w h.calm c;
  }

  pub set_worker-IsSafe :
      (bs : List Block) (p : Pools) (i : ℕ) (w : Worker State)
      → IsSafe bs p
      → IsCalm w
      → IsSafe bs (set_worker D unmarshal p i w)
  set_worker-IsSafe bs p i w h c = stated bs p p.db i w h (λ k. k) (λ _ k. k) c

  -- The heights that are stored are others than that of a new block.
  other_heights :
      (b : Block) (t : Tables) (bs : List Block)
      → has_block b.height t.blocks ≡ false
      → All (λ c. HasBlock c.height t) bs
      → All (λ c. c.height ≢ b.height) bs
  other_heights b t bs new h = All-map _ _ bs (λ c k same. cc) h

  updated_lem : (f : ℕ → Worker State) (i : ℕ) (w : Worker State) → update f i w i ≡ w
  updated_lem f i w = let same : (i == i) ≡ true = ground arith in rw same refl

  pub after_add-IsSafe :
      (bs : List Block) (p : Pools) (i : ℕ) (now : Time) (b : Block) (txs : List Transaction)
      (out : Result Bool × State)
      → IsSafe bs p
      → Post out (Added D L (tables p.db) (block_row now b)) (λ s'. tables s' ≡ tables p.db)
      → Post out (λ _ s'. WellFormed (tables s')) (λ s'. WellFormed (tables s'))
      → let q = after_add D unmarshal p i now b txs out in
        IsSafe (now_running (q.workers i) ++ bs) q
  after_add-IsSafe bs p i now b txs (ok true, s) h (old, same) w =
      rw (updated_lem p.workers i idle) (stated bs p s i idle h (λ _. w) (λ _ k. rw same k) tt)
  after_add-IsSafe bs p i now b txs (ok false, s) h (new, added) w =
      let started = running b (process_stored D now b txs) in
      rw (updated_lem p.workers i started) (record {
        well_formed = w;
        stored = (
          rw added (has_block-append_self (block_row now b) (tables p.db).blocks),
          All-map _ _ bs
              (λ c k. rw added (has_block-append c.height (block_row now b) (tables p.db).blocks k))
              h.stored,
        );
        distinct = (other_heights b (tables p.db) bs new h.stored, h.distinct);
        calm = update-IsCalm p.workers i started h.calm (process_stored-IsCalm now b txs);
      })
  after_add-IsSafe bs p i now b txs (err e, s) h same w =
      rw (updated_lem p.workers i idle) (stated bs p s i idle h (λ _. w) (λ _ k. rw same k) tt)

  pub add_next-IsSafe :
      (bs : List Block) (p : Pools) (i : ℕ) (now : Time) (m : BlockWithTransactions)
      (b : Option Block) (txs : List Transaction)
      → p.workers i ≡ adding m
      → IsSafe bs p
      → let q = add_next D unmarshal p i now b txs in IsSafe (now_running (q.workers i) ++ bs) q
  add_next-IsSafe bs p i now m none txs e h =
      rw e (elsewhere bs p p.queue p.workers p.done p.closed true h h.calm)
  add_next-IsSafe bs p i now m (some b) txs e h =
      after_add-IsSafe bs p i now b txs (add_block D now b p.db) h (add_block-Added D L now b p.db)
        (add_block-WellFormed D L now b p.db h.well_formed)

  pub branch-IsSafe :
      (bs : List Block) (test : Bool) (p q : Pools)
      → IsSafe bs p
      → IsSafe bs q
      → IsSafe bs (if test then p else q)
  branch-IsSafe bs true p q h k = h
  branch-IsSafe bs false p q h k = k

  pub take_next-IsSafe :
      (bs : List Block) (p : Pools) (i : ℕ) (q : List BlockWithTransactions)
      → IsSafe bs p
      → IsSafe bs (take_next D unmarshal p i q)
  take_next-IsSafe bs p i [] h =
      branch-IsSafe bs p.closed (set_worker D unmarshal p i stopped) p
        (set_worker-IsSafe bs p i stopped h tt) h
  take_next-IsSafe bs p i (m ∷ rest) h =
      elsewhere bs p rest (update p.workers i (adding m)) p.done p.closed p.crashed h
        (update-IsCalm p.workers i (adding m) h.calm tt)

  pub go_on-IsSafe :
      (bs : List Block) (p : Pools) (i : ℕ) (now : Time) (w : Worker State)
      → p.workers i ≡ w
      → IsSafe bs p
      → IsCalm w
      → let q = go_on D unmarshal p i now w in IsSafe (begins w (q.workers i) ++ bs) q
  go_on-IsSafe bs p i now idle e h c = take_next-IsSafe bs p i p.queue h
  go_on-IsSafe bs p i now stopped e h c = h
  go_on-IsSafe bs p i now (adding m) e h c = add_next-IsSafe bs p i now m m.block m.transactions e h
  go_on-IsSafe bs p i now (running b (ret r)) e h c = set_worker-IsSafe bs p i idle h tt
  go_on-IsSafe bs p i now (running b (step next rest)) e h c =
      stated bs p (next p.db) i (running b (rest p.db)) h (c.0 p.db).0 (λ k. (c.1 k p.db).0)
        ((c.0 p.db).1, λ k. (c.1 k p.db).1)

  pub leave_from-IsSafe :
      (bs : List Block) (p : Pools) (i : ℕ) (w : Worker State)
      → IsSafe bs p
      → IsSafe bs (leave_from D unmarshal p i w)
  leave_from-IsSafe bs p i idle h =
      branch-IsSafe bs p.done (set_worker D unmarshal p i stopped) p
        (set_worker-IsSafe bs p i stopped h tt) h
  leave_from-IsSafe bs p i stopped h = h
  leave_from-IsSafe bs p i (adding m) h = h
  leave_from-IsSafe bs p i (running b r) h = h

  pub handled-IsSafe :
      (bs : List Block) (p : Pools) (r : Result (Unit {0})) (q : List BlockWithTransactions)
      → IsSafe bs p
      → IsSafe bs (handled D unmarshal p (r, q))
  handled-IsSafe bs p (ok x) q h = elsewhere bs p q p.workers p.done p.closed p.crashed h h.calm
  handled-IsSafe bs p (err panicked) q h =
      elsewhere bs p p.queue p.workers p.done p.closed true h h.calm
  handled-IsSafe bs p (err e) q h = elsewhere bs p q p.workers p.done p.closed p.crashed h h.calm

  handled_closed-IsSafe :
      (bs : List Block) (p : Pools) (o : Option BlockWithTransactions)
      → IsSafe bs p
      → IsSafe bs (handled_closed D unmarshal p o)
  handled_closed-IsSafe bs p none h = h
  handled_closed-IsSafe bs p (some m) h =
      elsewhere bs p p.queue p.workers p.done p.closed true h h.calm

  pub deliver_to-IsSafe :
      (bs : List Block) (p : Pools) (closed : Bool) (bytes : String)
      → IsSafe bs p
      → IsSafe bs (deliver_to D unmarshal p closed bytes)
  deliver_to-IsSafe bs p false bytes h =
      let out = handle_message unmarshal p.queue bytes in handled-IsSafe bs p out.0 out.1 h
  deliver_to-IsSafe bs p true bytes h = handled_closed-IsSafe bs p (unmarshal bytes) h
