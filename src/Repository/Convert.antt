-- ===== src/Repository/Convert.antt =====
-- The conversions between the records of model/ and the JSON columns of ent/schema/.
use gno_land_block_indexer.Prelude.{◌≡◌, refl, List, [], ◌∷◌, arith}
use gno_land_block_indexer.Model.{GasFee, Message, Event, Response}
use gno_land_block_indexer.Ent.Schema

-- `schema.GasFee(tx.GasFee)` and `model.GasFee(entTx.GasFee)`
abbrev pub gas_fee_to_schema : GasFee → Schema.GasFee
gas_fee_to_schema g = record { amount = g.amount; denom = g.denom }

abbrev pub gas_fee_to_model : Schema.GasFee → GasFee
gas_fee_to_model g = record { amount = g.amount; denom = g.denom }

abbrev message_to_schema : Message → Schema.Message
message_to_schema m = record { route = m.route; type_url = m.type_url; value = m.value }

abbrev message_to_model : Schema.Message → Message
message_to_model m = record { route = m.route; type_url = m.type_url; value = m.value }

abbrev event_to_schema : Event → Schema.Event
event_to_schema e = record { type = e.type; func = e.func; pkg_path = e.pkg_path; attrs = e.attrs }

abbrev event_to_model : Schema.Event → Event
event_to_model e = record { type = e.type; func = e.func; pkg_path = e.pkg_path; attrs = e.attrs }

unfoldable pub convert_messages_to_schema : List Message → List Schema.Message
convert_messages_to_schema [] = []
convert_messages_to_schema (m ∷ ms) = message_to_schema m ∷ convert_messages_to_schema ms

unfoldable pub convert_schema_messages_to_model : List Schema.Message → List Message
convert_schema_messages_to_model [] = []
convert_schema_messages_to_model (m ∷ ms) = message_to_model m ∷ convert_schema_messages_to_model ms

events_to_schema : List Event → List Schema.Event
events_to_schema [] = []
events_to_schema (e ∷ es) = event_to_schema e ∷ events_to_schema es

events_to_model : List Schema.Event → List Event
events_to_model [] = []
events_to_model (e ∷ es) = event_to_model e ∷ events_to_model es

unfoldable pub convert_response_to_schema : Response → Schema.Response
unfolding events_to_schema
convert_response_to_schema r = record {
  log = r.log;
  info = r.info;
  error = r.error;
  data_text = r.data_text;
  events = events_to_schema r.events;
}

unfoldable pub convert_schema_response_to_model : Schema.Response → Response
unfolding events_to_model
convert_schema_response_to_model r = record {
  log = r.log;
  info = r.info;
  error = r.error;
  data_text = r.data_text;
  events = events_to_model r.events;
}

pub messages_round_trip :
    (ms : List Message) → convert_schema_messages_to_model (convert_messages_to_schema ms) ≡ ms
unfolding convert_schema_messages_to_model convert_messages_to_schema
messages_round_trip [] = refl
messages_round_trip (m ∷ ms) = ground (arith, messages_round_trip ms)

events_round_trip : (es : List Event) → events_to_model (events_to_schema es) ≡ es
unfolding events_to_model events_to_schema
events_round_trip [] = refl
events_round_trip (e ∷ es) = ground (arith, events_round_trip es)

pub response_round_trip :
    (r : Response) → convert_schema_response_to_model (convert_response_to_schema r) ≡ r
unfolding convert_schema_response_to_model convert_response_to_schema
response_round_trip r = ground (arith, events_round_trip r.events)
