-- ===== src/Model.antt =====
-- The records of model/model.go, and the message of externals/msgbroker/msgbroker.go. A height, an
-- index and a count are Go's `int`, modelled by an integer.
use gno_land_block_indexer.Prelude.{ℕ, Bool, String, List, ℤ, Option}
use gno_land_block_indexer.Float64.{Float64}

-- `time.Time` as the nanoseconds since year 1; Go's zero time is 0.
abbrev pub Time : Type 0
Time = ℕ

abbrev pub zero_time : Time
zero_time = 0

-- A decoded JSON value, Go's `any`. `float` is what a decoder makes of a number; `int` is there
-- because `getInt` asks for it.
mutual
  pub data Any : Type 0 where
    null : Any
    bool : Bool → Any
    float : Float64 → Any
    int : ℤ → Any
    str : String → Any
    arr : Items → Any
    obj : Fields → Any

  pub data Items : Type 0 where
    nil : Items
    cons : Any → Items → Items

  pub data Fields : Type 0 where
    end : Fields
    field : String → Any → Fields → Fields

pub record Block : Type 0 where
  pub hash : String
  pub height : ℤ
  pub time : Time
  pub total_txs : ℤ
  pub num_txs : ℤ

pub record GasFee : Type 0 where
  pub amount : Float64
  pub denom : String

-- `Value` is a `map[string]any`.
pub record Message : Type 0 where
  pub route : String
  pub type_url : String
  pub value : Fields

pub record Attr : Type 0 where
  pub key : String
  pub value : String

pub record Event : Type 0 where
  pub type : String
  pub func : String
  pub pkg_path : String
  pub attrs : List Attr

pub record Response : Type 0 where
  pub log : String
  pub info : String
  pub error : String
  pub data_text : String
  pub events : List Event

pub record Transaction : Type 0 where
  pub index : ℤ
  pub hash : String
  pub success : Bool
  pub block_height : ℤ
  pub gas_wanted : Float64
  pub gas_used : Float64
  pub memo : String
  pub gas_fee : GasFee
  pub messages : List Message
  pub response : Response

pub record Account : Type 0 where
  pub address : String
  pub token : String
  pub amount : Float64
  pub created_at : Time

pub record TokenBalance : Type 0 where
  pub token : String
  pub amount : Float64

pub record Transfer : Type 0 where
  pub func : String
  pub from_address : String
  pub to_address : String
  pub token : String
  pub amount : Float64
  pub denom : String
  pub created_at : Time

-- `Block` is a pointer, and `null` in a message leaves it nil.
pub record BlockWithTransactions : Type 0 where
  pub block : Option Block
  pub transactions : List Transaction
