-- ===== src/Broker/Poller.antt =====
-- `pollMessages` and `processMessage`: a message is deleted only when its handler has no error.
pub mod Laws
use gno_land_block_indexer.Prelude.{
  Bool, true, false, String, Option, none, some, List, [], ◌∷◌, if◌then◌else◌,
}
use gno_land_block_indexer.Ent.Error.{Result, ok, err}
use gno_land_block_indexer.Broker.Aws.{SqsMessage, Aws}

-- `S` is what the handler works on. `unwrap` is `json.Unmarshal` into the struct of an SNS message,
-- of which the field `Message` is kept.
module _ (A : Aws) (S : Type 0) (unwrap : String → Option String)
    (handler : String → S → Result (Unit {0}) × S) where
  pub record Site : Type 0 where
    pub aws : A.State
    pub state : S

  -- The raw body, if it is no SNS message.
  abbrev pub message_body : SqsMessage → Option String → String
  message_body msg none = msg.body
  message_body msg (some m) = m

  abbrev delete_if_handled : String → SqsMessage → Result (Unit {0}) × S → A.State → Site
  delete_if_handled url msg (err e, s) a = record { aws = a; state = s }
  delete_if_handled url msg (ok _, s) a = record {
    aws = (A.delete_message url msg.receipt_handle a).1;
    state = s;
  }

  unfoldable pub process_message : String → SqsMessage → Site → Site
  process_message url msg w =
      delete_if_handled url msg (handler (message_body msg (unwrap msg.body)) w.state) w.aws

  unfoldable pub process_messages : String → List SqsMessage → Site → Site
  process_messages url [] w = w
  process_messages url (m ∷ ms) w = process_messages url ms (process_message url m w)

  -- Whether the poller goes on, and the world. `done` says if the context is done after an error.
  abbrev after_receive : String → Bool → Option (List SqsMessage) × A.State → Site → Bool × Site
  after_receive url done (none, a) w = (if done then false else true, record w { aws = a })
  after_receive url done (some ms, a) w = (true, process_messages url ms (record w { aws = a }))

  -- A round: whether the context is done at its start, and after a failed receive.
  unfoldable pub poll_round : String → Bool × Bool → Site → Bool × Site
  poll_round url (done, done_after) w =
      if done then (false, w) else after_receive url done_after (A.receive_messages url w.aws) w

  abbrev poll_on : (Site → Bool × Site) → Bool × Site → Bool × Site
  poll_on rest (true, w) = rest w
  poll_on rest (false, w) = (false, w)

  -- The poller over the rounds that happen; `true` is a poller that still runs.
  unfoldable pub poll_messages : String → List (Bool × Bool) → Site → Bool × Site
  poll_messages url [] w = (true, w)
  poll_messages url (r ∷ rs) w = poll_on (poll_messages url rs) (poll_round url r w)
