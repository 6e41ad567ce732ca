-- ===== src/Tests/Requests.antt =====
-- The REST interface at concrete requests.
use gno_land_block_indexer.Prelude.{
  ◌≢◌, true, String, Option, none, some, [], ◌∷◌, str_eq, eq_iff, if◌then◌else◌, arith,
}
use gno_land_block_indexer.Ent.Memory.{memory}
use gno_land_block_indexer.Rest.Handlers.{Body}
use gno_land_block_indexer.Rest.Routes.{token_routes, empty_token_path}
use gno_land_block_indexer.Rest.Routes.Laws.{token_routes-ne}
use gno_land_block_indexer.Rest.Cache.{Store, Remembers, Request, serve}
use gno_land_block_indexer.Rest.Cache.Laws.{IsFaithful, IsSound, serve-IsFaithful}
use gno_land_block_indexer.Tests.Data.{fresh}

-- A cache of one entry at most.
abbrev look : String → Option (String × String) → Option String
look key none = none
look key (some (k, v)) = if str_eq k key then some v else none

abbrev one_entry : Store
one_entry = record {
  State = Option (String × String);
  get = look;
  set = λ key value seconds c. (true, some (key, value));
}

one_entry-Remembers : Remembers one_entry
one_entry-Remembers key j value found seconds c e = ground (arith, eq_iff key j)

abbrev param : String → Option String
param path = some "/balances"

abbrev render : Body → String
render body = "body"

abbrev request : Request
request = record {
  method = "GET";
  path = "/tokens/balances";
  raw_query = "";
  query = record { bound = some ""; address = "" };
}

abbrev no_entry : Option (String × String)
no_entry = none

no_entry-IsSound : IsSound memory one_entry one_entry-Remembers param render [] no_entry
no_entry-IsSound key value e = cc

serve-IsFaithful_example :
    let out = serve memory one_entry param render request fresh no_entry in
    IsFaithful memory one_entry one_entry-Remembers param render [] request fresh out.0
    × IsSound memory one_entry one_entry-Remembers param render ((request, fresh) ∷ []) out.1
serve-IsFaithful_example =
    serve-IsFaithful memory one_entry one_entry-Remembers param render [] request fresh no_entry
      no_entry-IsSound

token_routes-ne_example : token_routes "//balances" ≢ empty_token_path
token_routes-ne_example = token_routes-ne "//balances"
