-- ===== src/BlockSynchronizer/Session.antt =====
-- The loop of `SubscribeLastestBlock` over the websocket's messages, one round at a time.
pub mod Laws
use gno_land_block_indexer.Prelude.{
  ℕ, zero, suc, ◌+◌, ◌≡◌, Bool, true, false, String, Option, none, some, List, [], ◌∷◌, ◌++◌, ℤ,
  pos, if◌then◌else◌, str_eq,
}
use gno_land_block_indexer.Float64.{to_int64}
use gno_land_block_indexer.Model.{
  Time, zero_time, Any, null, bool, float, int, str, arr, obj, Fields, end, field, Block,
}
use gno_land_block_indexer.Ent.Error.{Result, ok, err, wrap, network, cancelled}
use gno_land_block_indexer.BlockSynchronizer.Poll.{rfc3339}

-- `m[key]`; `none` where the key is missing.
unfoldable pub get : String → Fields → Option Any
get key end = none
get key (field k v m) = if str_eq k key then some v else get key m

-- The type assertions `.(string)` and `.(map[string]any)`.
abbrev pub as_string : Option Any → Option String
as_string (some (str s)) = some s
as_string _ = none

abbrev pub as_object : Option Any → Option Fields
as_object (some (obj m)) = some m
as_object _ = none

abbrev string_or_empty : Option String → String
string_or_empty none = ""
string_or_empty (some s) = s

-- `getString`
unfoldable pub get_string : Fields → String → String
get_string m key = string_or_empty (as_string (get key m))

abbrev int_of : Option Any → ℤ
int_of (some (float x)) = to_int64 x
int_of (some (int n)) = n
int_of _ = pos 0

-- `getInt`
unfoldable pub get_int : Fields → String → ℤ
get_int m key = int_of (get key m)

abbrev or_else : {A : Type 0} → Option A → Option A → Option A
or_else none o = o
or_else (some a) o = some a

abbrev time_or_zero : Option Time → Time
time_or_zero none = zero_time
time_or_zero (some t) = t

abbrev pub fallback_layout : String
fallback_layout = "2006-01-02T15:04:05Z"

-- The time of a block: a missing or unreadable text is the zero time.
abbrev block_time : (String → String → Option Time) → Option String → Time
block_time parse none = zero_time
block_time parse (some text) =
    time_or_zero (or_else (parse rfc3339 text) (parse fallback_layout text))

-- What one round finds: whether the context is done at its start, and else what `ReadJSON` brings.
pub data Read : Type 0 where
  context_done : Read
  message : Fields → Read
  close_normal timeout broken : Read

-- What the round meets when it writes and sends: whether a pong goes out, and which case of the
-- `select` is taken: the send (`room`), or else the done context, or else the default.
pub record Round : Type 0 where
  pub read : Read
  pub pong_written : Bool
  pub room : Bool
  pub done_at_send : Bool

-- The blocks sent on the channel so far, the pongs written, and whether `complete` was written.
pub record Session : Type 0 where
  pub message_count : ℕ
  pub sent : List Block
  pub pongs : ℕ
  pub completed : Bool

pub data Outcome : Type 0 where
  go_on : Session → Outcome
  return : Result (Unit {0}) → Session → Outcome

module _ (parse_time : String → String → Option Time) (subscription_id : String) (once : Bool) where
  unfoldable pub block_of_fields : Fields → Block
  block_of_fields m = record {
    hash = get_string m "hash";
    height = get_int m "height";
    time = block_time parse_time (as_string (get "time" m));
    total_txs = get_int m "total_txs";
    num_txs = get_int m "num_txs";
  }

  -- The `select` that sends: a full channel drops the block.
  unfoldable pub send_block : Round → Block → Session → Outcome
  send_block r b s =
      if r.room
      then (let s' : Session = record s { sent = s.sent ++ b ∷ [] } in
          if once then return (ok tt) s' else go_on s')
      else if r.done_at_send
      then return (err cancelled) s
      else go_on s

  abbrev send_found : Round → Option Fields → Session → Outcome
  send_found r none s = go_on s
  send_found r (some m) s = send_block r (block_of_fields m) s

  abbrev take_blocks : Round → Option Fields → Session → Outcome
  take_blocks r none s = go_on s
  take_blocks r (some m) s = send_found r (as_object (get "getBlocks" m)) s

  abbrev has_errors : Option Any → Bool
  has_errors none = false
  has_errors (some v) = true

  -- The case `next`; a payload with errors, or without a block, is passed over.
  abbrev take_payload : Round → Option Fields → Session → Outcome
  take_payload r none s = go_on s
  take_payload r (some p) s =
      if has_errors (get "errors" p) then go_on s else take_blocks r (as_object (get "data" p)) s

  abbrev is_own : Option Any → Bool
  is_own (some (str i)) = str_eq i subscription_id
  is_own _ = false

  -- The `switch` over the message's type.
  unfoldable pub handle_type : Round → Fields → String → Session → Outcome
  handle_type r m type s =
      if str_eq type "ping"
      then (if r.pong_written
          then go_on (record s { pongs = s.pongs + 1 })
          else return (err (wrap "failed to send pong" network)) s)
      else if str_eq type "next"
      then take_payload r (as_object (get "payload" m)) s
      else if str_eq type "error"
      then (if is_own (get "id" m)
          then return (err (wrap "subscription error" network)) s
          else go_on s)
      else if str_eq type "complete"
      then return (ok tt) s
      else go_on s

  abbrev handle_typed : Round → Fields → Option String → Session → Outcome
  handle_typed r m none s = go_on s
  handle_typed r m (some type) s = handle_type r m type s

  abbrev read_round : Round → Read → Session → Outcome
  read_round r context_done s = return (err cancelled) (record s { completed = true })
  read_round r close_normal s = return (ok tt) s
  read_round r timeout s = go_on s
  read_round r broken s = return (err (wrap "failed to read WebSocket message" network)) s
  read_round r (message m) s =
      handle_typed r m (as_string (get "type" m)) (record s { message_count = s.message_count + 1 })

  unfoldable pub step : Session → Round → Outcome
  step s r = read_round r r.read s

  abbrev continue_with :
      (Session → Option (Result (Unit {0})) × Session)
      → Outcome
      → Option (Result (Unit {0})) × Session
  continue_with rest (go_on s) = rest s
  continue_with rest (return res s) = (some res, s)

  -- The loop over the rounds that happen; `none` is a subscription that still runs.
  unfoldable pub run : List Round → Session → Option (Result (Unit {0})) × Session
  run [] s = (none, s)
  run (r ∷ rs) s = continue_with (run rs) (step s r)
