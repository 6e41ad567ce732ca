-- ===== src/Tests/Delivery.antt =====
-- From a publish to the event processor's queue, over a local service.
use gno_land_block_indexer.Prelude.{false, String, Option, some, List, [], ◌∷◌}
use gno_land_block_indexer.Model.{BlockWithTransactions}
use gno_land_block_indexer.Ent.Error.{Result}
use gno_land_block_indexer.Broker.Aws.{SqsMessage}
use gno_land_block_indexer.Broker.Service.{Wiring}
use gno_land_block_indexer.Broker.Local.{local, raw}
use gno_land_block_indexer.Broker.Topics.{Broker, subscribe, publish}
use gno_land_block_indexer.EventProcessor.Queue.Laws.{Queue, handler}
use gno_land_block_indexer.EventProcessor.Delivery as Delivery
use gno_land_block_indexer.Tests.Data.{message}

abbrev Fn : Type 0
Fn = String → Queue → Result (Unit {0}) × Queue

abbrev decode : String → Option BlockWithTransactions
decode text = some message

abbrev pub idle : Wiring
idle = record { owed = λ u. []; feeds = λ a u. false; admits = λ u a. false }

abbrev new_broker : (H : Type 0) → Wiring → Broker local H
new_broker H w = record {
  aws = w;
  topic_arns = [];
  queue_urls = [];
  subscribers = [];
  pollers = [];
}

abbrev listening : Broker local Fn
listening =
    (subscribe local Fn "17" "block_with_txs" (handler decode local raw) (new_broker Fn idle)).1

abbrev publisher : Broker local (Unit {0})
publisher = new_broker (Unit {0}) listening.aws

abbrev after : String → Broker local (Unit {0}) → Broker local (Unit {0})
after text p = (publish local (Unit {0}) "block_with_txs" text p).1

-- The second text comes first, and the first one twice.
abbrev batch : List SqsMessage
batch =
    record { body = "b8"; receipt_handle = "r1" }
    ∷ record { body = "b7"; receipt_handle = "r2" }
    ∷ record { body = "b7"; receipt_handle = "r3" }
    ∷ []
