-- ===== src/Repository/Transfers/Laws.antt =====
-- What the transfer operations do to the table, and what `GetTransfers` returns.
use gno_land_block_indexer.Prelude.{
  ◌≡◌, ◌⊎◌, ap, inl, inr, Bool-cases, ◌≢◌, refl, Bool, true, String, Option, none, some, List, [],
  ◌∷◌, ◌++◌, map, All, keep, arith, eq_iff, append-nil,
}
use gno_land_block_indexer.Model.{Time, Transaction, Transfer}
use gno_land_block_indexer.Ent.Error.{Error, driver, wrap, Result, ok, err}
use gno_land_block_indexer.Ent.Tables.{
  Tables, TransferRow, transfers_fit, transfer_holds, holds_all, column_eq,
}
use gno_land_block_indexer.Ent.Database.{Database, IsLawful, Answers}
use gno_land_block_indexer.Ent.Client.{save_transfers, transfer_check, all_nodes}
use gno_land_block_indexer.Ent.Client.Laws.{Applied, save_bulk-Applied}
use gno_land_block_indexer.Repository.Transfers.{
  transfer_row, transfer_model, transfers_added, add_transfers, transfer_where, get_transfers,
  found_transfers, or_empty,
}

module _ (D : Database) (L : IsLawful D) where
  open D use {State, tables}

  abbrev pub recorded : Tables → List TransferRow → Tables
  recorded ts rs = record ts { transfers = ts.transfers ++ rs }

  recorded_out :
      (fits : Bool) (after : Tables) (s : State) (out : Result (Unit {0}) × State)
      → Applied D fits after s out
      → Applied D fits after s (transfers_added D out)
  recorded_out fits after s (ok _, s') h = h
  recorded_out fits after s (err e, s') h = h

  -- `AddTransfers` adds every row, and each of their addresses is that of an account; or it
  -- returns an error and adds none.
  pub add_transfers-Applied :
      (now : Time) (tx : Transaction) (ts : List Transfer) (s : State)
      → let rs = map (transfer_row now tx) ts in
        Applied D
          (transfers_fit rs (tables s))
          (recorded (tables s) rs)
          s
          (add_transfers D now tx ts s)
  unfolding add_transfers save_transfers
  add_transfers-Applied now tx ts s =
      let rs = map (transfer_row now tx) ts in
      recorded_out (transfers_fit rs (tables s)) (recorded (tables s) rs) s _ (
        save_bulk-Applied D transfer_check D.insert_transfers (λ l. transfers_fit l (tables s))
          (recorded (tables s)) rs s refl
          (ap (λ rs. record (tables s) { transfers = rs }) (append-nil (tables s).transfers))
          (L.insert_transfers-Write rs s))

  abbrev pub BothAre : String → Transfer → Type 0
  BothAre a t = (t.from_address ≡ a) × (t.to_address ≡ a)

  column_lem : (a : String) (c : Option String) → column_eq c a ≡ true → or_empty c ≡ a
  column_lem a none h = cc
  column_lem a (some b) h = (eq_iff b a).0 h

  self_row :
      (a t : String) (r : TransferRow)
      → a ≢ ""
      → holds_all transfer_holds (transfer_where a a t) r ≡ true
      → BothAre a (transfer_model r)
  self_row a t r ha h =
      ground (arith, eq_iff a "", column_lem a r.from_address, column_lem a r.to_address)

  self_rows :
      (a t : String) (rs : List TransferRow)
      → a ≢ ""
      → All
          (BothAre a)
          (map transfer_model (keep (holds_all transfer_holds (transfer_where a a t)) rs))
  self_rows a t [] ha = tt
  self_rows a t (r ∷ rs) ha =
      elim (Bool-cases (holds_all transfer_holds (transfer_where a a t) r)) [
        | inl y ↦ rw y (self_row a t r ha y, self_rows a t rs ha)
        | inr n ↦ rw n (self_rows a t rs ha)
      ]

  self_found :
      (a t : String) (o : Option (List TransferRow)) (s : State) (ts : List Transfer)
      → a ≢ ""
      → Answers o (keep (holds_all transfer_holds (transfer_where a a t)) (tables s).transfers)
      → found_transfers D (all_nodes o) ≡ ok ts
      → All (BothAre a) ts
  self_found a t none s ts ha h e = cc
  self_found a t (some rows) s ts ha h e =
      let here = keep (holds_all transfer_holds (transfer_where a a t)) (tables s).transfers in
      let same : ts ≡ map transfer_model here = ground arith in
      rw same (self_rows a t (tables s).transfers ha)

  -- On a lawful database, with one address that is not empty for the sender and the receiver, and
  -- with any token or none, `GetTransfers` returns only transfers from that address to itself.
  pub get_transfers_self :
      (a t : String) (s : State) (ts : List Transfer)
      → a ≢ ""
      → get_transfers D a a t s ≡ ok ts
      → All (BothAre a) ts
  unfolding get_transfers
  get_transfers_self a t s ts ha e =
      self_found a t _ s ts ha (L.select_transfers-Answers (transfer_where a a t) s) e

  found_cases :
      (o : Option (List TransferRow)) (rows : List TransferRow)
      → Answers o rows
      → (found_transfers D (all_nodes o) ≡ ok (map transfer_model rows))
        ⊎ ((e : Error) × (found_transfers D (all_nodes o) ≡ err e))
  found_cases none rows h = inr (wrap "failed to get transfer" driver, refl)
  found_cases (some found) rows h = inl (ap (λ l. ok (map transfer_model l)) h)

  -- The rows that meet the conditions, or an error.
  pub get_transfers-cases :
      (a b t : String) (s : State)
      → (get_transfers D a b t s
          ≡ ok (
              map transfer_model
                (keep (holds_all transfer_holds (transfer_where a b t)) (tables s).transfers)))
        ⊎ ((e : Error) × (get_transfers D a b t s ≡ err e))
  unfolding get_transfers
  get_transfers-cases a b t s =
      found_cases (D.select_transfers (transfer_where a b t) s) _
        (L.select_transfers-Answers (transfer_where a b t) s)
