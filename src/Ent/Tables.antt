-- ===== src/Ent/Tables.antt =====
-- The rows of the five tables of ent/schema/ and ent/migrate/schema.go, and their keys. The order
-- in which a table is listed carries no meaning.
use gno_land_block_indexer.Prelude.{
  Bool, true, false, not, ◌&&◌, String, Option, none, some, List, [], ◌∷◌, ◌++◌, ℤ, eq_ℤ, any, all,
  if◌then◌else◌, str_eq,
}
use gno_land_block_indexer.Float64.{Float64, add}
use gno_land_block_indexer.Model.{Time}
use gno_land_block_indexer.Ent.Schema.{GasFee, Message, Response}

-- The primary key is the height.
pub record BlockRow : Type 0 where
  pub height : ℤ
  pub hash : String
  pub time : Time
  pub total_txs : ℤ
  pub num_txs : ℤ
  pub created_at : Time

-- `block_id` refers to a block; the serial primary key is not read by the program.
pub record TransactionRow : Type 0 where
  pub index : ℤ
  pub hash : String
  pub success : Bool
  pub block_height : ℤ
  pub gas_wanted : Float64
  pub gas_used : Float64
  pub memo : String
  pub gas_fee : GasFee
  pub messages : List Message
  pub response : Response
  pub created_at : Time
  pub block_id : ℤ

-- The primary key is the address alone.
pub record AccountRow : Type 0 where
  pub address : String
  pub token : String
  pub amount : Float64

-- Each address, where there is one, refers to an account.
pub record TransferRow : Type 0 where
  pub hash : String
  pub func : String
  pub from_address : Option String
  pub to_address : Option String
  pub token : String
  pub amount : Float64
  pub denom : String
  pub created_at : Time

pub record HistoryRow : Type 0 where
  pub id : ℤ
  pub restore_range_start : ℤ
  pub restore_range_end : ℤ
  pub being_block : ℤ

pub record Tables : Type 0 where
  pub blocks : List BlockRow
  pub transactions : List TransactionRow
  pub accounts : List AccountRow
  pub transfers : List TransferRow
  pub histories : List HistoryRow

abbrev pub has_block : ℤ → List BlockRow → Bool
has_block h = any (λ r. eq_ℤ r.height h)

abbrev pub has_account : String → List AccountRow → Bool
has_account a = any (λ r. str_eq r.address a)

-- New blocks have new heights, no two the same.
abbrev pub blocks_fit : List BlockRow → List BlockRow → Bool
blocks_fit [] old = true
blocks_fit (r ∷ rs) old = not (has_block r.height old) && blocks_fit rs (old ++ r ∷ [])

abbrev pub transactions_fit : List TransactionRow → Tables → Bool
transactions_fit rs t = all (λ r. has_block r.block_id t.blocks) rs

abbrev pub refers : Option String → Tables → Bool
refers none t = true
refers (some a) t = has_account a t.accounts

abbrev pub transfers_fit : List TransferRow → Tables → Bool
transfers_fit rs t = all (λ r. refers r.from_address t && refers r.to_address t) rs

-- Conditions on a row, as a query or an update gives them; all of them have to hold.
pub data AccountPredicate : Type 0 where
  id_eq token_eq : String → AccountPredicate

abbrev pub account_holds : AccountPredicate → AccountRow → Bool
account_holds (id_eq a) r = str_eq r.address a
account_holds (token_eq t) r = str_eq r.token t

pub data TransferPredicate : Type 0 where
  from_eq to_eq transfer_token_eq func_eq : String → TransferPredicate

-- A column that is NULL equals no text.
abbrev pub column_eq : Option String → String → Bool
column_eq none v = false
column_eq (some u) v = str_eq u v

abbrev pub transfer_holds : TransferPredicate → TransferRow → Bool
transfer_holds (from_eq a) r = column_eq r.from_address a
transfer_holds (to_eq a) r = column_eq r.to_address a
transfer_holds (transfer_token_eq t) r = str_eq r.token t
transfer_holds (func_eq f) r = str_eq r.func f

abbrev pub holds_all {ℓ κ} : {P : Type ℓ} {R : Type κ} → (P → R → Bool) → List P → R → Bool
holds_all holds ps r = all (λ p. holds p r) ps

-- `UPDATE accounts SET amount = amount + x WHERE …`
abbrev pub add_amount : Float64 → AccountRow → AccountRow
add_amount x r = record r { amount = add r.amount x }

abbrev pub update_where {ℓ} : {R : Type ℓ} → (R → Bool) → (R → R) → List R → List R
update_where p f [] = []
update_where p f (r ∷ rs) = (if p r then f r else r) ∷ update_where p f rs

-- `INSERT … ON CONFLICT (id) DO UPDATE` with the new values.
abbrev pub upsert : HistoryRow → List HistoryRow → List HistoryRow
upsert r [] = r ∷ []
upsert r (q ∷ qs) = if eq_ℤ q.id r.id then r ∷ qs else q ∷ upsert r qs
