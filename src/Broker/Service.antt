-- ===== src/Broker/Service.antt =====
-- What the broker relies on of SNS and SQS, as their documentation says it: a topic's ARN is made
-- of its name and a queue's of its URL, creating a topic that exists returns its ARN, and a message
-- that SNS accepts for a topic will be delivered at least once to each queue that is subscribed to the
-- topic and whose policy admits it, in the JSON envelope of an SNS message: when, in what order and how
-- often is left open.
use gno_land_block_indexer.Prelude.{◌≡◌, Bool, true, String, Option, some, List, Among}
use gno_land_block_indexer.Broker.Aws.{Aws}

-- The bodies that are owed to a queue, by its URL: each will arrive there at least once; which topics
-- feed it; which ones its policy admits.
pub record Wiring : Type 0 where
  pub owed : String → List String
  pub feeds : String → String → Bool
  pub admits : String → String → Bool

-- The topic of the ARN reaches the queue of the URL.
abbrev pub Reaches : Wiring → String → String → Type 0
Reaches w arn url = (w.feeds arn url ≡ true) × (w.admits url arn ≡ true)

-- `unwrap` reads the field `Message` of an envelope.
pub record Service (A : Aws) (unwrap : String → Option String) : Type 0 where
  pub view : A.State → Wiring
  pub arn_of_topic : String → String
  pub arn_of_queue : String → String
  pub envelope : String → String
  pub unwrap-envelope : (m : String) → unwrap (envelope m) ≡ some m
  pub created :
      (name arn : String) (s s' : A.State)
      → A.create_topic name s ≡ (some arn, s')
      → (arn ≡ arn_of_topic name) × (view s' ≡ view s)
  pub asked :
      (url arn : String) (s s' : A.State)
      → A.queue_arn url s ≡ (some arn, s')
      → arn ≡ arn_of_queue url
  pub admitted :
      (url arn : String) (s s' : A.State)
      → A.set_policy url (record { resource = arn_of_queue url; source_arn = arn }) s ≡ (true, s')
      → (view s').admits url arn ≡ true
  pub subscribed :
      (arn url : String) (s s' : A.State)
      → A.sns_subscribe arn (arn_of_queue url) s ≡ (true, s')
      → ((view s').feeds arn url ≡ true) × ((view s').admits ≡ (view s).admits)
  pub published :
      (arn url m : String) (s s' : A.State)
      → A.sns_publish arn m s ≡ (true, s')
      → Reaches (view s) arn url
      → Among (envelope m) ((view s').owed url)
        × ((body : String) → Among body ((view s).owed url) → Among body ((view s').owed url))
        × Reaches (view s') arn url
