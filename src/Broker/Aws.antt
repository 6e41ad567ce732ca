-- ===== src/Broker/Aws.antt =====
-- The calls of the AWS SDK that the broker makes. `none` and `false` are errors of a call.
use gno_land_block_indexer.Prelude.{Bool, String, Option, List}

-- The access policy of a queue: the JSON text's two holes, the queue's ARN and the topic's.
pub record Policy : Type 0 where
  pub resource : String
  pub source_arn : String

pub record SqsMessage : Type 0 where
  pub body : String
  pub receipt_handle : String

pub record Aws : Type 1 where
  pub State : Type 0
  pub list_topics : State → Bool × State
  pub list_queues : State → Bool × State
  pub create_topic : String → State → Option String × State
  pub sns_publish : String → String → State → Bool × State
  pub create_queue : String → State → Option String × State
  pub queue_arn : String → State → Option String × State
  pub set_policy : String → Policy → State → Bool × State
  pub sns_subscribe : String → String → State → Bool × State
  pub receive_messages : String → State → Option (List SqsMessage) × State
  pub delete_message : String → String → State → Bool × State
  pub delete_queue : String → State → Bool × State
  pub delete_topic : String → State → Bool × State
