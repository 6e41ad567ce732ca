-- ===== src/EventProcessor/Queue.antt =====
-- The handler that `SubscribeAndHandle` gives to the broker, and the queue between it and the workers.
pub mod Laws
use gno_land_block_indexer.Prelude.{
  ℕ, Bool, String, Option, none, some, List, [], ◌∷◌, ◌++◌, ltb, length, if◌then◌else◌,
}
use gno_land_block_indexer.Model.{Block, BlockWithTransactions}
use gno_land_block_indexer.Ent.Error.{Result, ok, err, panicked, bad_message, wrap}

-- `make(chan …, 100)`
abbrev pub capacity : ℕ
capacity = 100

-- The `default` case of the `select`: it reads the block's height for the log.
abbrev drop_message : Option Block → Result (Unit {0})
drop_message none = err panicked
drop_message (some b) = ok tt

abbrev pub offer :
    List BlockWithTransactions
    → BlockWithTransactions
    → Result (Unit {0}) × List BlockWithTransactions
offer queue m =
    if ltb (length queue) capacity then (ok tt, queue ++ m ∷ []) else (drop_message m.block, queue)

abbrev offer_decoded :
    List BlockWithTransactions
    → Option BlockWithTransactions
    → Result (Unit {0}) × List BlockWithTransactions
offer_decoded queue none = (err (wrap "Failed to unmarshal message" bad_message), queue)
offer_decoded queue (some m) = offer queue m

-- The handler; `unmarshal` is `json.Unmarshal` on the bytes.
unfoldable pub handle_message :
    (String → Option BlockWithTransactions)
    → List BlockWithTransactions
    → String
    → Result (Unit {0}) × List BlockWithTransactions
handle_message unmarshal queue bytes = offer_decoded queue (unmarshal bytes)
