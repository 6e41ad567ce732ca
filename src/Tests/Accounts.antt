-- ===== src/Tests/Accounts.antt =====
-- The event handlers at concrete accounts.
use gno_land_block_indexer.Prelude.{◌≡◌, ◌≢◌, refl, String, List, [], ◌∷◌, pos, neg64, ◌+ℤ◌, arith}
use gno_land_block_indexer.Float64.{add, round, round_ℕ}
use gno_land_block_indexer.Model.{TokenBalance}
use gno_land_block_indexer.Ent.Error.{Result, ok}
use gno_land_block_indexer.Repository.Accounts.{get_balances}
use gno_land_block_indexer.Repository.Accounts.Sums.{Sums, accounts_of, get_balances-Sums}
use gno_land_block_indexer.Ent.Post.{Post, Returns, Fails}
use gno_land_block_indexer.Ent.Memory.{
  Server, memory, memory-IsLawful, steady, steady-IsLawful, steady-IsReliable,
}
use gno_land_block_indexer.Ent.Tables.{AccountRow}
use gno_land_block_indexer.EventProcessor.Handlers.{handle_mint, handle_burn, handle_transfer}
use gno_land_block_indexer.EventProcessor.Handlers.Laws.{
  Holds, Unmoved, Unpaid, paid, moved, handle_transfer-Post, handle_burn-Post,
}
use gno_land_block_indexer.EventProcessor.Handlers.Accepts.{handle_mint-Returns, handle_mint-Fails}
use gno_land_block_indexer.Tests.Data.{token, no_tables}

abbrev alice_row : AccountRow
alice_row = record { address = "alice"; token = token; amount = pos 100 }

abbrev with_alice : Server
with_alice = record {
  tables = record no_tables { accounts = alice_row ∷ [] };
  statements_left = 100;
}

abbrev alice : String
alice = "alice"

abbrev bob : String
bob = "bob"

abbrev other_token : String
other_token = "gno.land/r/demo/bar20"

alice_ne : alice ≢ ""
alice_ne = cc

bob_ne : bob ≢ ""
bob_ne = cc

token_ne : token ≢ ""
token_ne = cc

other_ne : other_token ≢ ""
other_ne = cc

-- A new address gets its account.
handle_mint-Returns_example : Returns (handle_mint steady 5 token "bob" (pos 30) with_alice) (λ _ s.
    Holds steady steady-IsLawful with_alice.tables (paid "bob" token (pos 30) (alice_row ∷ [])) s)
handle_mint-Returns_example =
    handle_mint-Returns steady steady-IsLawful steady-IsReliable 5 token "bob" (pos 30) with_alice
      bob_ne token_ne (refl, tt) refl

-- Alice holds one token, and can be paid no other.
handle_mint-Fails_example :
    Fails
      (handle_mint memory 5 "gno.land/r/demo/bar20" "alice" (pos 30) with_alice)
      (λ s. s.tables ≡ with_alice.tables)
handle_mint-Fails_example =
    handle_mint-Fails memory memory-IsLawful 5 "gno.land/r/demo/bar20" "alice" (pos 30) with_alice
      alice_ne other_ne refl refl

handle_transfer-Post_example :
    Post
      (handle_transfer memory token "alice" "bob" (pos 30) with_alice)
      (λ _ s.
        Holds memory memory-IsLawful with_alice.tables
          (moved "alice" "bob" token (pos 30) (alice_row ∷ []))
          s)
      (Unmoved memory memory-IsLawful with_alice.tables "alice" "bob" token (pos 30))
handle_transfer-Post_example =
    handle_transfer-Post memory memory-IsLawful token "alice" "bob" (pos 30) with_alice alice_ne
      bob_ne token_ne

handle_burn-Post_example :
    Post
      (handle_burn memory 5 token "alice" (pos 30) with_alice)
      (λ _ s.
        Holds memory memory-IsLawful with_alice.tables
          (paid "alice" token (neg64 (pos 30)) (alice_row ∷ []))
          s)
      (Unpaid memory memory-IsLawful with_alice.tables "alice" token)
handle_burn-Post_example =
    handle_burn-Post memory memory-IsLawful 5 token "alice" (pos 30) with_alice alice_ne token_ne

abbrev with_both : Server
with_both = record {
  tables = record no_tables {
    accounts = alice_row ∷ record { address = "bob"; token = token; amount = pos 30 } ∷ [];
  };
  statements_left = 100;
}

abbrev all_balances : Result (List TokenBalance)
all_balances = get_balances memory "" with_both

get_balances-Sums_example :
    Sums memory memory-IsLawful token (accounts_of "" with_both.tables.accounts) all_balances
get_balances-Sums_example =
    get_balances-Sums memory memory-IsLawful "" token with_both (omega arith)

added_up : all_balances ≡ ok (record { token = token; amount = pos 130 } ∷ [])
unfolding get_balances add round round_ℕ ◌+ℤ◌
added_up = refl
