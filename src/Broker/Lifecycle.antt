-- ===== src/Broker/Lifecycle.antt =====
-- `NewMsgBrokerLocalStack` with its defaults and `testConnection`, and `Close` and `cleanup`.
use gno_land_block_indexer.Prelude.{
  Bool, true, false, String, Option, none, some, List, [], ◌∷◌, if◌then◌else◌, str_eq,
}
use gno_land_block_indexer.Ent.Error.{Result, ok, err, wrap, network}
use gno_land_block_indexer.Broker.Aws.{Aws}
use gno_land_block_indexer.Broker.Topics.{Broker}

pub record LocalStackConfig : Type 0 where
  pub endpoint : String
  pub region : String

abbrev pub default_config : LocalStackConfig
default_config = record { endpoint = "http://localhost:4566"; region = "us-east-1" }

abbrev or_default : String → String → String
or_default s d = if str_eq s "" then d else s

-- A missing configuration, and an empty field of one, take the default.
unfoldable pub with_defaults : Option LocalStackConfig → LocalStackConfig
with_defaults none = default_config
with_defaults (some c) = record {
  endpoint = or_default c.endpoint default_config.endpoint;
  region = or_default c.region default_config.region;
}

module _ (A : Aws) (Handler : Type 0) where
  abbrev after_queues : Bool × A.State → Result (Unit {0}) × A.State
  after_queues (true, s) = (ok tt, s)
  after_queues (false, s) = (err (wrap "SQS service not accessible" network), s)

  abbrev after_topics : Bool × A.State → Result (Unit {0}) × A.State
  after_topics (true, s) = after_queues (A.list_queues s)
  after_topics (false, s) = (err (wrap "SNS service not accessible" network), s)

  unfoldable pub test_connection : A.State → Result (Unit {0}) × A.State
  test_connection s = after_topics (A.list_topics s)

  abbrev connected : Result (Unit {0}) × A.State → Result (Broker A Handler)
  connected (ok _, s) =
      ok (record { aws = s; topic_arns = []; queue_urls = []; subscribers = []; pollers = [] })
  connected (err e, s) = err (wrap "failed to connect to LocalStack" e)

  -- `config_loaded` says whether the SDK's configuration could be loaded.
  unfoldable pub new_msg_broker : Bool → A.State → Result (Broker A Handler)
  new_msg_broker config_loaded s =
      if config_loaded
      then connected (test_connection s)
      else err (wrap "failed to load AWS config" network)

  -- `cleanup` deletes every queue, then every topic; a failure is only logged.
  abbrev delete_each :
      (String → A.State → Bool × A.State) → List (String × String) → A.State → A.State
  delete_each delete [] s = s
  delete_each delete ((name, key) ∷ m) s = delete_each delete m (delete key s).1

  unfoldable pub cleanup : Broker A Handler → Broker A Handler
  cleanup b = record b {
    aws = delete_each A.delete_topic b.topic_arns (delete_each A.delete_queue b.queue_urls b.aws);
  }
