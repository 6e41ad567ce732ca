-- ===== src/Ent/Database.antt =====
-- The database server behind the client, as the program relies on it: it runs one statement at a
-- time, and a statement is carried out whole, or refused for a key that it would break, or fails
-- and changes nothing. A query changes nothing and returns the rows that meet its conditions.
use gno_land_block_indexer.Prelude.{
  ℕ, ◌≡◌, ◌≢◌, Bool, true, false, String, Option, none, some, List, [], ◌∷◌, ◌++◌, ℤ, ltb_ℤ, eq_ℤ,
  take, drop, keep, if◌then◌else◌, not, str_eq,
}
use gno_land_block_indexer.Float64.{Float64}
use gno_land_block_indexer.Ent.Groups.{IsGrouped}
use gno_land_block_indexer.Ent.Tables.{
  BlockRow, TransactionRow, AccountRow, TransferRow, HistoryRow, Tables, has_account, blocks_fit,
  transactions_fit, transfers_fit, AccountPredicate, account_holds, TransferPredicate,
  transfer_holds, holds_all, add_amount, update_where, upsert,
}

pub data Reply : Type 0 where
  accepted refused failed : Reply

-- `LIMIT n OFFSET k`; a query without a limit has `none`.
abbrev pub window {ℓ} : {R : Type ℓ} → ℕ → Option ℕ → List R → List R
window offset none rs = drop offset rs
window offset (some n) rs = take n (drop offset rs)

-- `ORDER BY`, by insertion; `before` is strict.
abbrev pub insert_row {ℓ} : {R : Type ℓ} → (R → R → Bool) → R → List R → List R
insert_row before r [] = r ∷ []
insert_row before r (q ∷ qs) = if before r q then r ∷ q ∷ qs else q ∷ insert_row before r qs

abbrev pub order_by {ℓ} : {R : Type ℓ} → (R → R → Bool) → List R → List R
order_by before [] = []
order_by before (r ∷ rs) = insert_row before r (order_by before rs)

abbrev pub height_desc : BlockRow → BlockRow → Bool
height_desc a b = ltb_ℤ b.height a.height

abbrev pub index_asc : TransactionRow → TransactionRow → Bool
index_asc a b = ltb_ℤ a.index b.index

-- `none` from a query is an error of the driver.
pub record Database : Type 1 where
  pub State : Type 0
  pub tables : State → Tables
  pub insert_blocks : List BlockRow → State → Reply × State
  pub insert_transactions : List TransactionRow → State → Reply × State
  pub insert_account : AccountRow → State → Reply × State
  pub insert_transfers : List TransferRow → State → Reply × State
  pub upsert_history : HistoryRow → State → Reply × State
  pub update_accounts : List AccountPredicate → Float64 → State → Reply × State
  pub select_block : ℤ → ℕ → State → Option (List BlockRow)
  pub select_blocks_desc : ℕ → Option ℕ → State → Option (List BlockRow)
  pub select_transaction : String → ℕ → State → Option (List TransactionRow)
  pub select_transactions_asc : ℤ → ℕ → Option ℕ → State → Option (List TransactionRow)
  pub select_accounts : List AccountPredicate → Option ℕ → State → Option (List AccountRow)
  pub sum_amounts_by_token : List AccountPredicate → State → Option (List (String × Float64))
  pub select_transfers : List TransferPredicate → State → Option (List TransferRow)
  pub select_history : ℤ → ℕ → State → Option (List HistoryRow)

-- What a statement has done that would turn the tables into `after`, and that the keys allow or not.
pub data Write (D : Database) (fits : Bool) (after : Tables) (s : D.State) (out : Reply × D.State)
    : Type 0 where
  done : fits ≡ true → out.0 ≡ accepted → D.tables out.1 ≡ after → Write D fits after s out
  broken : fits ≡ false → out.0 ≡ refused → D.tables out.1 ≡ D.tables s → Write D fits after s out
  lost : out.0 ≡ failed → D.tables out.1 ≡ D.tables s → Write D fits after s out

-- A query's answer, where there is one.
abbrev pub Answers {ℓ} : {A : Type ℓ} → Option A → A → Type ℓ
Answers none rows = Unit
Answers (some found) rows = found ≡ rows

-- Grouped sums of these rows, where there is an answer; their order and that of the additions is open.
abbrev pub Grouping : Option (List (String × Float64)) → List AccountRow → Type 0
Grouping none rows = Unit
Grouping (some g) rows = IsGrouped rows g

pub record IsLawful (D : Database) : Type 0 where
  pub insert_blocks-Write :
      (rs : List BlockRow) (s : D.State)
      → let t = D.tables s in
        Write D
          (blocks_fit rs t.blocks)
          (record t { blocks = t.blocks ++ rs })
          s
          (D.insert_blocks rs s)
  pub insert_transactions-Write :
      (rs : List TransactionRow) (s : D.State)
      → let t = D.tables s in
        Write D
          (transactions_fit rs t)
          (record t { transactions = t.transactions ++ rs })
          s
          (D.insert_transactions rs s)
  pub insert_account-Write :
      (r : AccountRow) (s : D.State)
      → let t = D.tables s in
        Write D
          (not (has_account r.address t.accounts))
          (record t { accounts = t.accounts ++ r ∷ [] })
          s
          (D.insert_account r s)
  pub insert_transfers-Write :
      (rs : List TransferRow) (s : D.State)
      → let t = D.tables s in
        Write D
          (transfers_fit rs t)
          (record t { transfers = t.transfers ++ rs })
          s
          (D.insert_transfers rs s)
  pub upsert_history-Write :
      (r : HistoryRow) (s : D.State)
      → let t = D.tables s in
        Write D true (record t { histories = upsert r t.histories }) s (D.upsert_history r s)
  pub update_accounts-Write :
      (ps : List AccountPredicate) (x : Float64) (s : D.State)
      → let t = D.tables s in
        Write D true
          (record t {
            accounts = update_where (holds_all account_holds ps) (add_amount x) t.accounts;
          })
          s
          (D.update_accounts ps x s)
  pub select_block-Answers :
      (h : ℤ) (n : ℕ) (s : D.State)
      → Answers (D.select_block h n s) (take n (keep (λ r. eq_ℤ r.height h) (D.tables s).blocks))
  pub select_blocks_desc-Answers :
      (offset : ℕ) (limit : Option ℕ) (s : D.State)
      → Answers
          (D.select_blocks_desc offset limit s)
          (window offset limit (order_by height_desc (D.tables s).blocks))
  pub select_transaction-Answers :
      (hash : String) (n : ℕ) (s : D.State)
      → Answers
          (D.select_transaction hash n s)
          (take n (keep (λ r. str_eq r.hash hash) (D.tables s).transactions))
  pub select_transactions_asc-Answers :
      (h : ℤ) (offset : ℕ) (limit : Option ℕ) (s : D.State)
      → Answers (D.select_transactions_asc h offset limit s) (
          window offset limit
            (order_by index_asc (keep (λ r. eq_ℤ r.block_height h) (D.tables s).transactions)))
  pub select_accounts-Answers :
      (ps : List AccountPredicate) (limit : Option ℕ) (s : D.State)
      → Answers
          (D.select_accounts ps limit s)
          (window 0 limit (keep (holds_all account_holds ps) (D.tables s).accounts))
  pub sum_amounts_by_token-Answers :
      (ps : List AccountPredicate) (s : D.State)
      → Grouping
          (D.sum_amounts_by_token ps s)
          (keep (holds_all account_holds ps) (D.tables s).accounts)
  pub select_transfers-Answers :
      (ps : List TransferPredicate) (s : D.State)
      → Answers
          (D.select_transfers ps s)
          (keep (holds_all transfer_holds ps) (D.tables s).transfers)
  pub select_history-Answers :
      (i : ℤ) (n : ℕ) (s : D.State)
      → Answers (D.select_history i n s) (take n (keep (λ r. eq_ℤ r.id i) (D.tables s).histories))

-- The program's statements and the query of accounts do not fail: only a key refuses them.
pub record IsReliable (D : Database) : Type 0 where
  pub insert_account_ne : (r : AccountRow) (s : D.State) → (D.insert_account r s).0 ≢ failed
  pub update_accounts_ne :
      (ps : List AccountPredicate) (x : Float64) (s : D.State)
      → (D.update_accounts ps x s).0 ≢ failed
  pub select_accounts_ne :
      (ps : List AccountPredicate) (limit : Option ℕ) (s : D.State)
      → D.select_accounts ps limit s ≢ none
  pub upsert_history_ne : (r : HistoryRow) (s : D.State) → (D.upsert_history r s).0 ≢ failed
  pub insert_blocks_ne : (rs : List BlockRow) (s : D.State) → (D.insert_blocks rs s).0 ≢ failed
  pub insert_transactions_ne :
      (rs : List TransactionRow) (s : D.State) → (D.insert_transactions rs s).0 ≢ failed
  pub insert_transfers_ne :
      (rs : List TransferRow) (s : D.State) → (D.insert_transfers rs s).0 ≢ failed
