-- ===== src/BlockSynchronizer/Subscribe.antt =====
-- `SubscribeLastestBlock`: the handshake of the graphql-transport-ws protocol, then the loop.
use gno_land_block_indexer.Prelude.{
  Bool, false, String, Option, none, some, List, [], if◌then◌else◌, str_eq,
}
use gno_land_block_indexer.Model.{Time, Any, str, Fields}
use gno_land_block_indexer.Ent.Error.{Result, err, wrap, network}
use gno_land_block_indexer.BlockSynchronizer.Session.{Session, Round, get, run}

-- How each call of the handshake ends; `ack` is what the first `ReadJSON` brings.
pub record Handshake : Type 0 where
  pub url_parsed : Bool
  pub dialled : Bool
  pub init_written : Bool
  pub ack : Option Fields
  pub subscribe_written : Bool

-- `ackMsg["type"] != "connection_ack"`
abbrev pub is_ack : Option Any → Bool
is_ack (some (str t)) = str_eq t "connection_ack"
is_ack _ = false

abbrev pub new_session : Session
new_session = record { message_count = 0; sent = []; pongs = 0; completed = false }

abbrev failed : String → Option (Result (Unit {0})) × Session
failed m = (some (err (wrap m network)), new_session)

module _ (parse_time : String → String → Option Time) (subscription_id : String) (once : Bool) where
  abbrev acknowledged :
      Handshake → Option Fields → List Round → Option (Result (Unit {0})) × Session
  acknowledged h none rounds = failed "failed to read connection ack"
  acknowledged h (some m) rounds =
      if is_ack (get "type" m)
      then (if h.subscribe_written
          then run parse_time subscription_id once rounds new_session
          else failed "failed to send subscription")
      else failed "expected connection_ack"

  unfoldable pub subscribe_lastest_block :
      Handshake → List Round → Option (Result (Unit {0})) × Session
  subscribe_lastest_block h rounds =
      if h.url_parsed
      then (if h.dialled
          then (if h.init_written
              then acknowledged h h.ack rounds
              else failed "failed to send connection init")
          else failed "failed to connect to WebSocket")
      else failed "failed to parse URL"
