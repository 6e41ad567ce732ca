-- ===== src/Startup.antt =====
-- How the programs start: the connection strings of the two repositories, NewService of the block
-- synchronizer and of the event processor, and the configurations of their controllers and of the
-- REST interface's.
pub mod Laws
use Prim.Native.String.{◌++◌ as ◌+++◌}
use gno_land_block_indexer.Prelude.{
  Bool, true, false, String, Option, none, some, ℤ, pos, if◌then◌else◌, str_eq,
}
use gno_land_block_indexer.Text.Format.{format_int}
use gno_land_block_indexer.Ent.Error.{Result, ok, err}
use gno_land_block_indexer.Broker.Aws.{Aws}
use gno_land_block_indexer.Broker.Topics.{Broker}
use gno_land_block_indexer.Broker.Lifecycle.{LocalStackConfig, with_defaults, new_msg_broker}

pub record RepositoryEntConfig : Type 0 where
  pub host : String
  pub port : ℤ
  pub user : String
  pub password : String
  pub database : String

abbrev pub data_source : RepositoryEntConfig → String
data_source c =
    "host="
    +++ c.host
    +++ " port="
    +++ format_int c.port
    +++ " user="
    +++ c.user
    +++ " password="
    +++ c.password
    +++ " dbname="
    +++ c.database
    +++ " sslmode=disable"

-- A program that is up, one that a panic ended, and one that `os.Exit` of Fatalf ended.
pub data Started (A : Type 0) : Type 0 where
  up : A → Started A
  crashed exited : Started A

abbrev pub then_start : {A B : Type 0} → Started A → (A → Started B) → Started B
then_start (up a) f = f a
then_start crashed f = crashed
then_start exited f = exited

abbrev pub websocket_or_default : String → String
websocket_or_default e = if str_eq e "" then "wss://indexer.onbloc.xyz/graphql/query" else e

-- What the programs find when they start: the database driver and the services, which the broker
-- reaches by its configuration. `config_loaded` says whether the SDK's configuration is there.
pub record Platform : Type 1 where
  pub Client : Type 0
  pub open_client : String → String → Option Client
  pub create_schema : Client → Bool
  pub aws : LocalStackConfig → Aws
  pub aws_state : (c : LocalStackConfig) → (aws c).State
  pub config_loaded : LocalStackConfig → Bool

module _ (P : Platform) where
  abbrev schema_created : P.Client → Started P.Client
  schema_created client = if P.create_schema client then up client else exited

  abbrev pub opened : Option P.Client → Started P.Client
  opened none = crashed
  opened (some client) = schema_created client

  -- A configuration that is nil is a panic.
  unfoldable pub new_repository_ent : Option RepositoryEntConfig → Started P.Client
  new_repository_ent none = crashed
  new_repository_ent (some c) = opened (P.open_client "postgres" (data_source c))

  unfoldable pub new_repository_bs_ent : RepositoryEntConfig → Started P.Client
  new_repository_bs_ent c = opened (P.open_client "postgres" (data_source c))

  -- The synchronizer's copy of the configuration reads its fields.
  abbrev pub repository_bs : Option RepositoryEntConfig → Started P.Client
  repository_bs none = crashed
  repository_bs (some c) = new_repository_bs_ent c

  module _ (Handler : Type 0) where
    abbrev pub LocalStack : Option LocalStackConfig → Type 0
    LocalStack c = Broker (P.aws (with_defaults c)) Handler

    -- An error of the broker ends the program.
    abbrev pub or_exit : {A : Type 0} → Result A → Started A
    or_exit (ok a) = up a
    or_exit (err e) = exited

    unfoldable pub local_stack : (c : Option LocalStackConfig) → Started (LocalStack c)
    local_stack c = or_exit (
        new_msg_broker (P.aws (with_defaults c)) Handler (P.config_loaded (with_defaults c))
          (P.aws_state (with_defaults c)))

    pub record SynchronizerConfig : Type 0 where
      pub fetch_endpoint : String
      pub web_socket_endpoint : String
      pub ent_config : Option RepositoryEntConfig
      pub local_stack_config : Option LocalStackConfig

    -- `client` is the GraphQL client, by its endpoint.
    pub record Synchronizer (config : SynchronizerConfig) : Type 0 where
      pub repo : P.Client
      pub repo_bs : P.Client
      pub client : String
      pub websocket_endpoint : String
      pub broker : LocalStack config.local_stack_config

    -- The client is made before the default of its endpoint is worked out, which nothing reads.
    unfoldable pub new_synchronizer : (config : SynchronizerConfig) → Started (Synchronizer config)
    new_synchronizer config = then_start (new_repository_ent config.ent_config) (λ repo.
        then_start (repository_bs config.ent_config) (λ repo_bs.
          then_start (local_stack config.local_stack_config) (λ broker. up (record {
            repo = repo;
            repo_bs = repo_bs;
            client = config.fetch_endpoint;
            websocket_endpoint = websocket_or_default config.web_socket_endpoint;
            broker = broker;
          }))))

    pub record ProcessorConfig : Type 0 where
      pub ent_config : Option RepositoryEntConfig
      pub local_stack_config : Option LocalStackConfig

    pub record Processor (config : ProcessorConfig) : Type 0 where
      pub repo : P.Client
      pub broker : LocalStack config.local_stack_config

    unfoldable pub new_processor : (config : ProcessorConfig) → Started (Processor config)
    new_processor config = then_start (new_repository_ent config.ent_config) (λ repo.
        then_start (local_stack config.local_stack_config)
          (λ broker. up (record { repo = repo; broker = broker })))

-- What the three controllers ask for.
abbrev pub local_database : RepositoryEntConfig
local_database = record {
  host = "localhost";
  port = pos 5432;
  user = "postgres";
  password = "postgres";
  database = "postgres";
}

abbrev pub local_broker : LocalStackConfig
local_broker = record { endpoint = "http://localhost:4566"; region = "us-east-1" }
