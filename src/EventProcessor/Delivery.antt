-- ===== src/EventProcessor/Delivery.antt =====
-- From `Publish` of the block synchronizer to the queue of the event processor: the broker, the
-- services, the poller and the handler together.
use gno_land_block_indexer.Prelude.{◌≡◌, String, Option, some, List, [], ◌∷◌, ◌++◌, All, Among}
use gno_land_block_indexer.Model.{BlockWithTransactions}
use gno_land_block_indexer.Ent.Error.{Result}
use gno_land_block_indexer.Broker.Aws.{Aws, SqsMessage}
use gno_land_block_indexer.Broker.Service.{Service}
use gno_land_block_indexer.Broker.Topics.{Broker}
use gno_land_block_indexer.Broker.Poller.{Site, process_messages}
use gno_land_block_indexer.EventProcessor.Queue.Laws.{Queue, handler}

module _ (A : Aws) (unwrap : String → Option String) (S : Service A unwrap)
    (unmarshal : String → Option BlockWithTransactions) where
  -- Messages that a queue hands out, in whatever order and however often: each is the envelope of one of
  -- the texts, which encodes the block.
  pub data Conveys (texts : List String)
      : List BlockWithTransactions → List SqsMessage → Type 0 where
    done : Conveys texts [] []
    also :
        {text : String} {m : BlockWithTransactions} {receipt : String}
        {ms : List BlockWithTransactions} {batch : List SqsMessage}
        → Among text texts
        → unmarshal text ≡ some m
        → Conveys texts ms batch
        → Conveys texts
            (m ∷ ms)
            (record { body = S.envelope text; receipt_handle = receipt } ∷ batch)

  abbrev Handled : Type 0
  Handled = Site A Queue unwrap (handler unmarshal A unwrap)

  -- The texts are owed to the poller's queue, and the poller hands over the blocks that it receives.
  abbrev pub Arrives :
      {Other : Type 0}
      → String
      → List String
      → List BlockWithTransactions
      → List SqsMessage
      → Broker A (String → Queue → Result (Unit {0}) × Queue)
      → Broker A (String → Queue → Result (Unit {0}) × Queue)
      → Broker A Other
      → Broker A Other
      → Queue
      → Type 0
  Arrives topic texts ms batch b b' p p' q =
      (url : String) × (b'.pollers
        ≡ b.pollers
          ++ record { topic = topic; queue_url = url; handler = handler unmarshal A unwrap } ∷ [])
      × All (λ text. Among (S.envelope text) ((S.view p'.aws).owed url)) texts
      × ((process_messages A Queue unwrap (handler unmarshal A unwrap) url batch
            (record { aws = p'.aws; state = q })).state
          ≡ q ++ ms)
