-- ===== src/BlockSynchronizer/Poll.antt =====
-- `PollBlocks` and `PollTransactions` of cmd/block-synchronizer/service/service.go. The server's
-- answer to a query with the bounds `gt` and `lt` is a parameter; so is `time.Parse`.
pub mod Laws
use gno_land_block_indexer.Prelude.{
  Bool, String, Option, none, some, List, [], ◌∷◌, map, ℤ, pos, add64, ◌<ℤ◌, All, ◌≡◌,
}
use gno_land_block_indexer.Float64.{Float64}
use gno_land_block_indexer.Model.{
  Time, zero_time, Fields, Block, GasFee, Message, Attr, Event, Response, Transaction,
}
use gno_land_block_indexer.Ent.Error.{Result, ok, err, wrap, network}

-- The anonymous structs into which an answer is decoded.
pub record RawBlock : Type 0 where
  pub hash : String
  pub height : ℤ
  pub time : String
  pub total_txs : ℤ
  pub num_txs : ℤ

pub record RawMessage : Type 0 where
  pub route : String
  pub type_url : String
  pub value : Fields

pub record RawEvent : Type 0 where
  pub type : String
  pub func : String
  pub pkg_path : String
  pub attrs : List Attr

pub record RawTransaction : Type 0 where
  pub index : ℤ
  pub hash : String
  pub success : Bool
  pub block_height : ℤ
  pub gas_wanted : Float64
  pub gas_used : Float64
  pub memo : String
  pub gas_fee : GasFee
  pub messages : List RawMessage
  pub log : String
  pub info : String
  pub error : String
  pub data_text : String
  pub events : List RawEvent

-- `none` is an error of `client.Run`. `parse_time layout text` is `time.Parse`.
pub record Graphql : Type 0 where
  pub run_blocks : ℤ → ℤ → Option (List RawBlock)
  pub run_transactions : ℤ → ℤ → Option (List RawTransaction)
  pub parse_time : String → String → Option Time

-- The server keeps to the bounds of a query: both are strict.
abbrev pub HonoursBlocks : Graphql → Type 0
HonoursBlocks G =
    (gt lt : ℤ) (rs : List RawBlock)
    → G.run_blocks gt lt ≡ some rs
    → All (λ r. (gt <ℤ r.height) × (r.height <ℤ lt)) rs

abbrev pub HonoursTransactions : Graphql → Type 0
HonoursTransactions G =
    (gt lt : ℤ) (rs : List RawTransaction)
    → G.run_transactions gt lt ≡ some rs
    → All (λ r. (gt <ℤ r.block_height) × (r.block_height <ℤ lt)) rs

abbrev pub rfc3339 : String
rfc3339 = "2006-01-02T15:04:05Z07:00"

-- A text that does not parse is kept as the zero time.
abbrev time_or_zero : Option Time → Time
time_or_zero none = zero_time
time_or_zero (some t) = t

-- `offset + limit + 1`
abbrev pub upper_bound : ℤ → ℤ → ℤ
upper_bound offset limit = add64 (add64 offset limit) (pos 1)

abbrev message_of : RawMessage → Message
message_of m = record { route = m.route; type_url = m.type_url; value = m.value }

abbrev event_of : RawEvent → Event
event_of e = record { type = e.type; func = e.func; pkg_path = e.pkg_path; attrs = e.attrs }

unfoldable pub transaction_of : RawTransaction → Transaction
transaction_of t = record {
  index = t.index;
  hash = t.hash;
  success = t.success;
  block_height = t.block_height;
  gas_wanted = t.gas_wanted;
  gas_used = t.gas_used;
  memo = t.memo;
  gas_fee = record { amount = t.gas_fee.amount; denom = t.gas_fee.denom };
  messages = map message_of t.messages;
  response = record {
    log = t.log;
    info = t.info;
    error = t.error;
    data_text = t.data_text;
    events = map event_of t.events;
  };
}

abbrev polled {ℓ} : {R A : Type ℓ} → (R → A) → Option (List R) → Result (List A)
polled f none = err (wrap "failed to execute GraphQL query" network)
polled f (some rs) = ok (map f rs)

module _ (G : Graphql) where
  unfoldable pub block_of : RawBlock → Block
  block_of b = record {
    hash = b.hash;
    height = b.height;
    time = time_or_zero (G.parse_time rfc3339 b.time);
    total_txs = b.total_txs;
    num_txs = b.num_txs;
  }

  unfoldable pub poll_blocks : ℤ → ℤ → Result (List Block)
  poll_blocks offset limit = polled block_of (G.run_blocks offset (upper_bound offset limit))

  unfoldable pub poll_transactions : ℤ → ℤ → Result (List Transaction)
  poll_transactions block_offset limit =
      polled transaction_of (G.run_transactions block_offset (upper_bound block_offset limit))
