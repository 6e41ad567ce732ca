-- ===== src/Ent/Memory.antt =====
-- Databases in memory that obey the laws. `memory` carries out a number of statements and then loses
-- its connection, after which every statement and query fails; `steady` never fails.
use gno_land_block_indexer.Prelude.{
  ℕ, zero, suc, ◌≢◌, refl, Bool, true, false, Option, none, some, List, ◌++◌, ◌∷◌, [], eq_ℤ, take,
  keep, not, str_eq, arith,
}
use gno_land_block_indexer.Ent.Tables.{
  Tables, AccountRow, has_account, blocks_fit, transactions_fit, transfers_fit, account_holds,
  transfer_holds, holds_all, add_amount, update_where, upsert,
}
use gno_land_block_indexer.Ent.Groups.Fold.{group_sums, group_sums-IsGrouped}
use gno_land_block_indexer.Ent.Database.{
  Reply, accepted, refused, failed, window, order_by, height_desc, index_asc, Database, Grouping,
  Write, done, broken, lost, Answers, IsLawful, IsReliable,
}

pub record Server : Type 0 where
  pub tables : Tables
  pub statements_left : ℕ

module _ (tick : ℕ → Option ℕ) where
  abbrev write_left : Option ℕ → Bool → Tables → Server → Reply × Server
  write_left none fits after s = (failed, s)
  write_left (some n) true after s = (accepted, record { tables = after; statements_left = n })
  write_left (some n) false after s = (refused, record s { statements_left = n })

  abbrev write : Bool → Tables → Server → Reply × Server
  write fits after s = write_left (tick s.statements_left) fits after s

  abbrev read_left {ℓ} : {A : Type ℓ} → Option ℕ → A → Option A
  read_left none rows = none
  read_left (some n) rows = some rows

  abbrev pub server : Database
  server = record {
    State = Server;
    tables = λ s. s.tables;
    insert_blocks = λ rs s.
        write (blocks_fit rs s.tables.blocks) (record s.tables { blocks = s.tables.blocks ++ rs })
          s;
    insert_transactions = λ rs s.
        write (transactions_fit rs s.tables)
          (record s.tables { transactions = s.tables.transactions ++ rs }) s;
    insert_account = λ r s.
        write (not (has_account r.address s.tables.accounts))
          (record s.tables { accounts = s.tables.accounts ++ r ∷ [] }) s;
    insert_transfers = λ rs s.
        write (transfers_fit rs s.tables) (record s.tables { transfers = s.tables.transfers ++ rs })
          s;
    upsert_history =
        λ r s. write true (record s.tables { histories = upsert r s.tables.histories }) s;
    update_accounts = λ ps x s.
        write true
          (record s.tables {
            accounts = update_where (holds_all account_holds ps) (add_amount x) s.tables.accounts;
          })
          s;
    select_block = λ h n s.
        read_left (tick s.statements_left) (take n (keep (λ r. eq_ℤ r.height h) s.tables.blocks));
    select_blocks_desc = λ offset limit s.
        read_left (tick s.statements_left)
          (window offset limit (order_by height_desc s.tables.blocks));
    select_transaction = λ hash n s.
        read_left (tick s.statements_left)
          (take n (keep (λ r. str_eq r.hash hash) s.tables.transactions));
    select_transactions_asc = λ h offset limit s. read_left (tick s.statements_left) (
        window offset limit
          (order_by index_asc (keep (λ r. eq_ℤ r.block_height h) s.tables.transactions)));
    select_accounts = λ ps limit s.
        read_left (tick s.statements_left)
          (window 0 limit (keep (holds_all account_holds ps) s.tables.accounts));
    sum_amounts_by_token = λ ps s.
        read_left (tick s.statements_left)
          (group_sums [] (keep (holds_all account_holds ps) s.tables.accounts));
    select_transfers = λ ps s.
        read_left (tick s.statements_left) (keep (holds_all transfer_holds ps) s.tables.transfers);
    select_history = λ i n s.
        read_left (tick s.statements_left) (take n (keep (λ r. eq_ℤ r.id i) s.tables.histories));
  }

  write_left-Write :
      (n : Option ℕ) (fits : Bool) (after : Tables) (s : Server)
      → Write server fits after s (write_left n fits after s)
  write_left-Write none fits after s = lost refl refl
  write_left-Write (some n) true after s = done refl refl refl
  write_left-Write (some n) false after s = broken refl refl refl

  read_left-Answers {ℓ} : {A : Type ℓ} (n : Option ℕ) (rows : A) → Answers (read_left n rows) rows
  read_left-Answers none rows = tt
  read_left-Answers (some n) rows = refl

  read_left-Grouping :
      (n : Option ℕ) (rows : List AccountRow) → Grouping (read_left n (group_sums [] rows)) rows
  read_left-Grouping none rows = tt
  read_left-Grouping (some n) rows = group_sums-IsGrouped rows

  pub server-IsLawful : IsLawful server
  server-IsLawful = record {
    insert_blocks-Write = λ rs s. write_left-Write (tick s.statements_left) _ _ s;
    insert_transactions-Write = λ rs s. write_left-Write (tick s.statements_left) _ _ s;
    insert_account-Write = λ r s. write_left-Write (tick s.statements_left) _ _ s;
    insert_transfers-Write = λ rs s. write_left-Write (tick s.statements_left) _ _ s;
    upsert_history-Write = λ r s. write_left-Write (tick s.statements_left) _ _ s;
    update_accounts-Write = λ ps x s. write_left-Write (tick s.statements_left) _ _ s;
    select_block-Answers = λ h n s. read_left-Answers (tick s.statements_left) _;
    select_blocks_desc-Answers = λ o l s. read_left-Answers (tick s.statements_left) _;
    select_transaction-Answers = λ hash n s. read_left-Answers (tick s.statements_left) _;
    select_transactions_asc-Answers = λ h o l s. read_left-Answers (tick s.statements_left) _;
    select_accounts-Answers = λ ps l s. read_left-Answers (tick s.statements_left) _;
    sum_amounts_by_token-Answers = λ ps s.
        read_left-Grouping (tick s.statements_left)
          (keep (holds_all account_holds ps) s.tables.accounts);
    select_transfers-Answers = λ ps s. read_left-Answers (tick s.statements_left) _;
    select_history-Answers = λ i n s. read_left-Answers (tick s.statements_left) _;
  }

abbrev pub countdown : ℕ → Option ℕ
countdown zero = none
countdown (suc n) = some n

abbrev pub memory : Database
memory = server countdown

pub memory-IsLawful : IsLawful memory
memory-IsLawful = server-IsLawful countdown

abbrev pub steady : Database
steady = server some

pub steady-IsLawful : IsLawful steady
steady-IsLawful = server-IsLawful some

steady_write : (fits : Bool) (after : Tables) (s : Server) → (write some fits after s).0 ≢ failed
steady_write true after s = ground arith
steady_write false after s = ground arith

pub steady-IsReliable : IsReliable steady
steady-IsReliable = record {
  insert_account_ne = λ r s. steady_write _ _ s;
  update_accounts_ne = λ ps x s. cc;
  select_accounts_ne = λ ps l s. cc;
  upsert_history_ne = λ r s. cc;
  insert_blocks_ne = λ rs s. steady_write _ _ s;
  insert_transactions_ne = λ rs s. steady_write _ _ s;
  insert_transfers_ne = λ rs s. steady_write _ _ s;
}
