-- ===== src/Tests/Messages.antt =====
-- The channels, the subscription and the broker at concrete inputs.
use gno_land_block_indexer.Prelude.{
  ◌≡◌, refl, ◌≤◌, true, false, String, Option, none, some, [], ◌∷◌, length, replicate, arith, ℕ,
  suc,
}
use gno_land_block_indexer.Model.{BlockWithTransactions, str, obj, Fields, end, field, Time}
use gno_land_block_indexer.Ent.Error.{Result, ok}
use gno_land_block_indexer.Ent.Post.{Post}
use gno_land_block_indexer.BlockSynchronizer.Push.{receive, work, start, schedule}
use gno_land_block_indexer.BlockSynchronizer.Push.Laws.{IsFair, schedule-IsFair}
use gno_land_block_indexer.BlockSynchronizer.Session.{Round, message, Session, run}
use gno_land_block_indexer.BlockSynchronizer.Session.Laws.{RanOnce, run-RanOnce}
use gno_land_block_indexer.BlockSynchronizer.Subscribe.{new_session}
use gno_land_block_indexer.Broker.Aws.{Aws}
use gno_land_block_indexer.Broker.Topics.{Broker, ensure_topic, subscribe}
use gno_land_block_indexer.Broker.Topics.Laws.{Registered, ensure_topic_again, subscribe-Registered}
use gno_land_block_indexer.Broker.Poller.{Site, process_message, poll_messages}
use gno_land_block_indexer.EventProcessor.Queue.{capacity}
use gno_land_block_indexer.EventProcessor.Queue.Laws.{
  Queue, handler, poll_messages-bounded, process_message_full,
}
use gno_land_block_indexer.Tests.Data.{seventh_block, message as block_message}

schedule-IsFair_example :
    IsFair
      (seventh_block ∷ seventh_block ∷ [])
      (schedule (start (seventh_block ∷ seventh_block ∷ [])) (receive ∷ work ∷ receive ∷ []))
schedule-IsFair_example =
    schedule-IsFair (seventh_block ∷ seventh_block ∷ []) (receive ∷ work ∷ receive ∷ [])

abbrev no_time : String → String → Option Time
no_time layout text = none

abbrev new_block : Fields
new_block = field "type" (str "next") (
    field "payload"
      (obj (field "data" (obj (field "getBlocks" (obj (field "hash" (str "b9") end)) end)) end))
      end)

abbrev round : Round
round = record { read = message new_block; pong_written = true; room = true; done_at_send = false }

abbrev after_two : Option (Result (Unit {0})) × Session
after_two = run no_time "sub" true (round ∷ round ∷ []) new_session

run-RanOnce_example : RanOnce no_time "sub" new_session after_two
run-RanOnce_example = run-RanOnce no_time "sub" (round ∷ round ∷ []) new_session

-- The second message is not read any more.
one_sent : length after_two.1.sent ≡ 1
unfolding run gno_land_block_indexer.BlockSynchronizer.Session.step
    gno_land_block_indexer.BlockSynchronizer.Session.handle_type
    gno_land_block_indexer.BlockSynchronizer.Session.send_block
    gno_land_block_indexer.BlockSynchronizer.Session.get
one_sent = refl

-- Services that count the calls, and have one message for each poll.
abbrev services : Aws
services = record {
  State = ℕ;
  list_topics = λ n. (true, suc n);
  list_queues = λ n. (true, suc n);
  create_topic = λ t n. (some "arn:topic", suc n);
  sns_publish = λ t m n. (true, suc n);
  create_queue = λ q n. (some "queue-url", suc n);
  queue_arn = λ q n. (some "arn:queue", suc n);
  set_policy = λ q p n. (true, suc n);
  sns_subscribe = λ t q n. (true, suc n);
  receive_messages = λ q n. (some (record { body = "text"; receipt_handle = "r" } ∷ []), suc n);
  delete_message = λ q r n. (true, suc n);
  delete_queue = λ q n. (true, suc n);
  delete_topic = λ t n. (true, suc n);
}

abbrev new_broker : Broker services ℕ
new_broker = record { aws = 0; topic_arns = []; queue_urls = []; subscribers = []; pollers = [] }

subscribe-Registered_example :
    Post
      (subscribe services ℕ "17" "block_with_txs" 8 new_broker)
      (λ _ b. Registered services ℕ "block_with_txs" 8 new_broker b)
      (λ b. (b.subscribers ≡ []) × (b.pollers ≡ []))
subscribe-Registered_example = subscribe-Registered services ℕ "17" "block_with_txs" 8 new_broker

abbrev knowing : Broker services ℕ
knowing = (ensure_topic services ℕ "block_with_txs" new_broker).1

ensured : ensure_topic services ℕ "block_with_txs" new_broker ≡ (ok "arn:topic", knowing)
unfolding ensure_topic gno_land_block_indexer.Broker.Dict.value_at
ensured = refl

ensured_twice : ensure_topic services ℕ "block_with_txs" knowing ≡ (ok "arn:topic", knowing)
ensured_twice =
    ensure_topic_again services ℕ "block_with_txs" "arn:topic" new_broker knowing ensured

abbrev decode : String → Option BlockWithTransactions
decode text = some block_message

abbrev raw : String → Option String
raw text = none

abbrev handle : String → Queue → Result (Unit {0}) × Queue
handle = handler decode services raw

abbrev site : Queue → Site services Queue raw handle
site q = record { aws = 0; state = q }

stays_bounded :
    length
      (poll_messages services Queue raw handle "queue-url" ((false, false) ∷ []) (site [])).1.state
    ≤ capacity
stays_bounded =
    poll_messages-bounded decode services raw "queue-url" ((false, false) ∷ []) (site [])
      (omega arith)

abbrev full : Queue
full = replicate 100 block_message

process_message_full_example :
    process_message services Queue raw handle "queue-url"
      (record { body = "text"; receipt_handle = "r" })
      (site full)
    ≡ record { aws = 1; state = full }
process_message_full_example =
    process_message_full decode services raw "queue-url"
      (record { body = "text"; receipt_handle = "r" }) seventh_block block_message (site full) refl
      refl refl
