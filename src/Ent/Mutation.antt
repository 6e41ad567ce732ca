-- ===== src/Ent/Mutation.antt =====
-- What the five mutations of ent/mutation.go share: the values of a field, their Go types, the
-- results of the operations that take a field by its name, and the loop of cases that such a name
-- is looked up in. It is the interface `ent.Mutation` of the ORM, as the generated code fills it.
pub mod Account
pub mod Block
pub mod Transaction
pub mod Transfer
pub mod RestoreHistory
pub mod Entities
pub mod Laws
use gno_land_block_indexer.Prelude.{
  ◌≡◌, refl, Bool, String, Option, none, some, List, [], ◌∷◌, ℤ, if◌then◌else◌, str_eq, arith,
}
use gno_land_block_indexer.Float64.{Float64}
use gno_land_block_indexer.Model.{Time}
use gno_land_block_indexer.Ent.Schema.{GasFee, Message, Response}

-- `ent.Value`, an `any` that holds a field's value.
pub data Value : Type 0 where
  string_value : String → Value
  int_value : ℤ → Value
  float_value : Float64 → Value
  bool_value : Bool → Value
  time_value : Time → Value
  gas_fee_value : GasFee → Value
  messages_value : List Message → Value
  response_value : Response → Value

-- A Go type that a field can have: how its values are wrapped, and the type assertion `value.(A)`.
pub record Kind (A : Type 0) : Type 0 where
  pub wrap : A → Value
  pub unwrap : Value → Option A
  pub wrap-unwrap : (v : Value) (a : A) → unwrap v ≡ some a → wrap a ≡ v

abbrev as_string : Value → Option String
as_string (string_value x) = some x
as_string _ = none

pub as_string_lem : (v : Value) (x : String) → as_string v ≡ some x → string_value x ≡ v
as_string_lem v x h = ground arith

abbrev pub string_kind : Kind String
string_kind = record { wrap = string_value; unwrap = as_string; wrap-unwrap = as_string_lem }

abbrev as_int : Value → Option ℤ
as_int (int_value x) = some x
as_int _ = none

pub as_int_lem : (v : Value) (x : ℤ) → as_int v ≡ some x → int_value x ≡ v
as_int_lem v x h = ground arith

abbrev pub int_kind : Kind ℤ
int_kind = record { wrap = int_value; unwrap = as_int; wrap-unwrap = as_int_lem }

abbrev as_float : Value → Option Float64
as_float (float_value x) = some x
as_float _ = none

pub as_float_lem : (v : Value) (x : Float64) → as_float v ≡ some x → float_value x ≡ v
as_float_lem v x h = ground arith

abbrev pub float_kind : Kind Float64
float_kind = record { wrap = float_value; unwrap = as_float; wrap-unwrap = as_float_lem }

abbrev as_bool : Value → Option Bool
as_bool (bool_value x) = some x
as_bool _ = none

pub as_bool_lem : (v : Value) (x : Bool) → as_bool v ≡ some x → bool_value x ≡ v
as_bool_lem v x h = ground arith

abbrev pub bool_kind : Kind Bool
bool_kind = record { wrap = bool_value; unwrap = as_bool; wrap-unwrap = as_bool_lem }

abbrev as_time : Value → Option Time
as_time (time_value x) = some x
as_time _ = none

pub as_time_lem : (v : Value) (x : Time) → as_time v ≡ some x → time_value x ≡ v
as_time_lem v x h = ground arith

abbrev pub time_kind : Kind Time
time_kind = record { wrap = time_value; unwrap = as_time; wrap-unwrap = as_time_lem }

abbrev as_gas_fee : Value → Option GasFee
as_gas_fee (gas_fee_value x) = some x
as_gas_fee _ = none

pub as_gas_fee_lem : (v : Value) (x : GasFee) → as_gas_fee v ≡ some x → gas_fee_value x ≡ v
as_gas_fee_lem v x h = ground arith

abbrev pub gas_fee_kind : Kind GasFee
gas_fee_kind = record { wrap = gas_fee_value; unwrap = as_gas_fee; wrap-unwrap = as_gas_fee_lem }

abbrev as_messages : Value → Option (List Message)
as_messages (messages_value x) = some x
as_messages _ = none

pub as_messages_lem : (v : Value) (x : List Message) → as_messages v ≡ some x → messages_value x ≡ v
as_messages_lem v x h = ground arith

abbrev pub messages_kind : Kind (List Message)
messages_kind = record {
  wrap = messages_value;
  unwrap = as_messages;
  wrap-unwrap = as_messages_lem;
}

abbrev as_response : Value → Option Response
as_response (response_value x) = some x
as_response _ = none

pub as_response_lem : (v : Value) (x : Response) → as_response v ≡ some x → response_value x ≡ v
as_response_lem v x h = ground arith

abbrev pub response_kind : Kind Response
response_kind = record {
  wrap = response_value;
  unwrap = as_response;
  wrap-unwrap = as_response_lem;
}

-- What an operation by name returns: the mutation, or one of the two errors.
pub data Assigned (M : Type 0) : Type 0 where
  assigned : M → Assigned M
  unknown_field unexpected_type : Assigned M

abbrev given : {A M : Type 0} → Option A → (A → M) → Assigned M
given none f = unexpected_type
given (some x) f = assigned (f x)

-- A case of `SetField` or `AddField`: assert the type, then call the setter.
abbrev pub assign : {A M : Type 0} → Kind A → Value → (A → M) → Assigned M
assign k v f = given (k.unwrap v) f

-- A getter's value and whether it exists.
abbrev pub held : {A : Type 0} → Kind A → Option A → Option Value
held k none = none
held k (some x) = some (k.wrap x)

-- `*m.add += v`, or a new pointer.
abbrev pub added : {A : Type 0} → (A → A → A) → Option A → A → A
added plus none v = v
added plus (some a) v = plus a v

-- A name is listed if its pointer is not nil.
abbrev pub listed : {A : Type 0} → String → Option A → List String → List String
listed name none names = names
listed name (some x) names = name ∷ names

-- `switch name { case n: … }`
abbrev pub switch {ℓ} : {A : Type ℓ} → String → List (String × A) → A → A
switch name [] default = default
switch name ((n, a) ∷ rest) default = if str_eq name n then a else switch name rest default
