-- ===== src/Rest/Routes.antt =====
-- `handleTokenRoutes` of cmd/indexer-rest/controller/controller.go, on the path behind `/tokens`.
pub mod Laws
use gno_land_block_indexer.Prelude.{Bool, String, Option, none, some, if◌then◌else◌, str_eq}
use gno_land_block_indexer.Text.{cut_suffix, trim_slash}

pub data Route : Type 0 where
  balances transfer_history empty_token_path not_found : Route
  account_balances : String → Route

-- `TrimSuffix`, the test for an empty path, and `TrimPrefix` of one `/`.
abbrev token_route : Option String → Route
token_route none = not_found
token_route (some token_path) =
    if str_eq token_path "" then empty_token_path else account_balances (trim_slash token_path)

unfoldable pub token_routes : String → Route
token_routes path =
    if str_eq path "/balances"
    then balances
    else if str_eq path "/transfer-history"
    then transfer_history
    else token_route (cut_suffix "/balances" path)
