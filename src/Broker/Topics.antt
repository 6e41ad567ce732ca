-- ===== src/Broker/Topics.antt =====
-- `Publish` and `Subscribe`, each under the broker's lock.
pub mod Laws
pub mod Reach
pub mod Owed
use Prim.Native.String.{◌++◌ as ◌+++◌}
use gno_land_block_indexer.Prelude.{
  Bool, true, false, String, Option, none, some, List, [], ◌∷◌, ◌++◌, if◌then◌else◌,
}
use gno_land_block_indexer.Ent.Error.{Result, ok, err, wrap, network}
use gno_land_block_indexer.Ent.Action.{Action, pure, fail, ◌>>=◌, ◌>>◌, annotate}
use gno_land_block_indexer.Broker.Dict.{value_at, assign}
use gno_land_block_indexer.Broker.Aws.{Policy, Aws}

-- A poller that `Subscribe` starts; `Handler` is the type of the subscribers' functions.
pub record Poller (Handler : Type 0) : Type 0 where
  pub topic : String
  pub queue_url : String
  pub handler : Handler

module _ (A : Aws) (Handler : Type 0) where
  -- `msgBrokerLocalstack`, with the state of the services behind its clients.
  pub record Broker : Type 0 where
    pub aws : A.State
    pub topic_arns : List (String × String)
    pub queue_urls : List (String × String)
    pub subscribers : List (String × List Handler)
    pub pollers : List (Poller Handler)

  abbrev option_result {ℓ} : {X : Type ℓ} → Option X → Result X
  option_result none = err network
  option_result (some x) = ok x

  abbrev bool_result : Bool → Result (Unit {0})
  bool_result true = ok tt
  bool_result false = err network

  -- A call of the SDK that returns a value or nothing.
  abbrev asks : (A.State → Option String × A.State) → Action Broker String
  asks call b = let (o, s) = call b.aws in (option_result o, record b { aws = s })

  abbrev does : (A.State → Bool × A.State) → Action Broker (Unit {0})
  does call b = let (d, s) = call b.aws in (bool_result d, record b { aws = s })

  abbrev add_topic : String → String → Action Broker String
  add_topic topic arn b = (ok arn, record b { topic_arns = assign b.topic_arns topic arn })

  abbrev known_or_new : String → Option String → Action Broker String
  known_or_new topic (some arn) = pure arn
  known_or_new topic none = do
    arn ← annotate "failed to create topic" (asks (A.create_topic topic))
    add_topic topic arn

  -- The topic's ARN; it is created and remembered the first time.
  unfoldable pub ensure_topic : String → Action Broker String
  ensure_topic topic b = known_or_new topic (value_at b.topic_arns topic) b

  unfoldable pub publish : String → String → Action Broker (Unit {0})
  publish topic message = do
    arn ← ensure_topic topic
    annotate "failed to publish message to topic" (does (A.sns_publish arn message))

  unfoldable pub subscribe_queue_to_topic : String → String → Action Broker (Unit {0})
  subscribe_queue_to_topic topic_arn queue_url = do
    arn ← annotate "failed to get queue attributes" (asks (A.queue_arn queue_url))
    annotate "failed to set queue policy"
        (does (A.set_policy queue_url (record { resource = arn; source_arn = topic_arn })))
    annotate "failed to subscribe to topic" (does (A.sns_subscribe topic_arn arn))

  abbrev add_queue : String → String → Action Broker (Unit {0})
  add_queue name url b = (ok tt, record b { queue_urls = assign b.queue_urls name url })

  abbrev handlers_of : Option (List Handler) → List Handler
  handlers_of none = []
  handlers_of (some hs) = hs

  -- The handler is registered, and its poller started.
  abbrev add_subscriber : String → String → Handler → Action Broker (Unit {0})
  add_subscriber topic url h b = (
    ok tt,
    record b {
      subscribers =
          assign b.subscribers topic (handlers_of (value_at b.subscribers topic) ++ h ∷ []);
      pollers = b.pollers ++ record { topic = topic; queue_url = url; handler = h } ∷ [];
    },
  )

  -- `nano` is the text of `time.Now().UnixNano()`.
  abbrev queue_name : String → String → String
  queue_name topic nano = topic +++ "-queue-" +++ nano

  -- The queue is remembered before it is subscribed to the topic.
  abbrev subscribe_queue : String → String → Handler → String → String → Action Broker (Unit {0})
  subscribe_queue nano topic h arn url = do
    add_queue (queue_name topic nano) url
    annotate "failed to subscribe queue to topic" (subscribe_queue_to_topic arn url)
    add_subscriber topic url h

  abbrev subscribe_topic : String → String → Handler → String → Action Broker (Unit {0})
  subscribe_topic nano topic h arn = do
    url ←
        annotate "failed to create queue for topic" (asks (A.create_queue (queue_name topic nano)))
    subscribe_queue nano topic h arn url

  unfoldable pub subscribe : String → String → Handler → Action Broker (Unit {0})
  subscribe nano topic h = do arn ← ensure_topic topic; subscribe_topic nano topic h arn
