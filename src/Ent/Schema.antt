-- ===== src/Ent/Schema.antt =====
-- The JSON columns of ent/schema/transaction.go. They repeat the records of model/model.go.
use gno_land_block_indexer.Prelude.{String, List}
use gno_land_block_indexer.Float64.{Float64}
use gno_land_block_indexer.Model.{Fields, Attr}

pub record GasFee : Type 0 where
  pub amount : Float64
  pub denom : String

pub record Message : Type 0 where
  pub route : String
  pub type_url : String
  pub value : Fields

pub record Event : Type 0 where
  pub type : String
  pub func : String
  pub pkg_path : String
  pub attrs : List Attr

pub record Response : Type 0 where
  pub log : String
  pub info : String
  pub error : String
  pub data_text : String
  pub events : List Event
