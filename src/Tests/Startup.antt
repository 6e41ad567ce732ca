-- ===== src/Tests/Startup.antt =====
-- The synchronizer started with its controller's configuration.
use gno_land_block_indexer.Prelude.{◌≡◌, refl, true, String, some}
use gno_land_block_indexer.Broker.Local.{local}
use gno_land_block_indexer.Text.Format.{format_int}
use gno_land_block_indexer.Startup.{
  data_source, Started, Platform, Synchronizer, SynchronizerConfig, new_synchronizer,
  local_database, local_broker,
}
use gno_land_block_indexer.Startup.Laws.{Served, new_synchronizer-Served}
use gno_land_block_indexer.Tests.Delivery.{idle}

abbrev platform : Platform
platform = record {
  Client = String;
  open_client = λ driver source. some source;
  create_schema = λ client. true;
  aws = λ c. local;
  aws_state = λ c. idle;
  config_loaded = λ c. true;
}

-- The endpoint for polling is left out.
abbrev config : SynchronizerConfig platform (Unit {0})
config = record {
  fetch_endpoint = "";
  web_socket_endpoint = "";
  ent_config = some local_database;
  local_stack_config = some local_broker;
}

source_text :
    data_source local_database
    ≡ "host=localhost port=5432 user=postgres password=postgres dbname=postgres sslmode=disable"
unfolding format_int
source_text = refl

new_synchronizer-Served_example :
    Served platform (Unit {0}) config (new_synchronizer platform (Unit {0}) config)
new_synchronizer-Served_example = new_synchronizer-Served platform (Unit {0}) config

abbrev client_of : Started (Synchronizer platform (Unit {0}) config) → String
client_of (Started.up s) = s.client
client_of _ = "down"

-- It is up, and polls at no address.
polls_nowhere : client_of (new_synchronizer platform (Unit {0}) config) ≡ ""
unfolding new_synchronizer gno_land_block_indexer.Startup.new_repository_ent
    gno_land_block_indexer.Startup.new_repository_bs_ent gno_land_block_indexer.Startup.local_stack
    gno_land_block_indexer.Broker.Lifecycle.new_msg_broker
    gno_land_block_indexer.Broker.Lifecycle.test_connection
    gno_land_block_indexer.Broker.Lifecycle.with_defaults
polls_nowhere = refl
