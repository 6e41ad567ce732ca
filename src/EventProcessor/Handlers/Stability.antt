-- ===== src/EventProcessor/Handlers/Stability.antt =====
-- A predicate on the tables that each of the statements keeps is kept by the event handlers, whether
-- they return an error or not.
use gno_land_block_indexer.Prelude.{
  ◌≡◌, inl, inr, true, false, String, Option, none, some, List, [], ◌∷◌, ◌++◌, ℤ, neg64, str_eq,
  arith, Bool-cases,
}
use gno_land_block_indexer.Float64.{Float64, of_int64}
use gno_land_block_indexer.Model.{Time, Account, zero_time}
use gno_land_block_indexer.Ent.Error.{Result, ok, err}
use gno_land_block_indexer.Ent.Action.{Action, annotate, reads, ◌>>=◌}
use gno_land_block_indexer.Ent.Post.{Post, Post-bind, Post-annotate, Post-weaken}
use gno_land_block_indexer.Ent.Tables.{Tables, AccountRow, TransferRow, has_account, transfers_fit}
use gno_land_block_indexer.Ent.Database.{Database, IsLawful}
use gno_land_block_indexer.Ent.Balances.{credit}
use gno_land_block_indexer.Repository.Accounts.{
  add_account, get_account, increment_account_balance, account_row,
}
use gno_land_block_indexer.Repository.Accounts.Laws.{
  add_account-Applied, increment_account_balance-Applied,
}
use gno_land_block_indexer.EventProcessor.Handlers.{
  new_account, add_if_missing, ensure_account, handle_mint, handle_burn, handle_transfer, move_from,
  move_amount,
}

-- The statements that the handlers run keep the predicate.
pub record IsClosed (P : Tables → Type 0) : Type 0 where
  pub add_account :
      (t : Tables) (r : AccountRow)
      → has_account r.address t.accounts ≡ false
      → P t
      → P (record t { accounts = t.accounts ++ r ∷ [] })
  pub credit_account :
      (t : Tables) (a token : String) (x : Float64)
      → P t
      → P (record t { accounts = credit a token x t.accounts })
  pub add_transfers :
      (t : Tables) (rs : List TransferRow)
      → transfers_fit rs t ≡ true
      → P t
      → P (record t { transfers = t.transfers ++ rs })

module _ (D : Database) (L : IsLawful D) (P : Tables → Type 0) (C : IsClosed P) where
  open D use {State, tables}

  -- The call keeps the predicate, on success and on error.
  abbrev pub Keeps : {A : Type 0} → Action State A → Type 0
  Keeps m = (s : State) → P (tables s) → Post (m s) (λ _ s'. P (tables s')) (λ s'. P (tables s'))

  pub bind-Keeps :
      {A B : Type 0} (m : Action State A) (f : A → Action State B)
      → Keeps m
      → ((a : A) → Keeps (f a))
      → Keeps (m >>= f)
  bind-Keeps m f h k s p = Post-bind _ _ _ m f s (h s p) (λ a s' q. k a s' q)

  pub annotate-Keeps :
      {A : Type 0} (msg : String) (m : Action State A) → Keeps m → Keeps (annotate msg m)
  annotate-Keeps msg m h s p = Post-annotate _ _ msg m s (h s p)

  pub reads_out :
      {A : Type 0} (r : Result A) (s : State)
      → P (tables s)
      → Post (r, s) (λ _ s'. P (tables s')) (λ s'. P (tables s'))
  reads_out (ok a) s p = p
  reads_out (err e) s p = p

  pub increment-Keeps : (a t : String) (v : ℤ) → Keeps (increment_account_balance D a t v)
  increment-Keeps a t v s p =
      Post-weaken _ _ _ _ (increment_account_balance D a t v s)
        (increment_account_balance-Applied D L a t v s)
        (λ _ s' h. rw h.1 (C.credit_account (tables s) a t (of_int64 v) p)) (λ s' h. rw h p)

  pub add_account-Keeps : (a : Account) → Keeps (add_account D a)
  add_account-Keeps a s p =
      Post-weaken _ _ _ _ (add_account D a s) (add_account-Applied D L a s)
        (λ _ s' h. rw h.1 (C.add_account (tables s) (account_row a) (ground arith) p))
        (λ s' h. rw h p)

  add_if_missing-Keeps :
      (now : Time) (a t : String) (found : Option Account) → Keeps (add_if_missing D now a t found)
  add_if_missing-Keeps now a t none s p =
      annotate-Keeps "Failed to add account" (add_account D (new_account now a t))
        (add_account-Keeps (new_account now a t)) s p
  add_if_missing-Keeps now a t (some acc) s p = p

  ensure_account-Keeps : (now : Time) (a t : String) → Keeps (ensure_account D now a t)
  unfolding ensure_account
  ensure_account-Keeps now a t =
      bind-Keeps (reads (get_account D a t)) (add_if_missing D now a t)
        (λ s p. reads_out (get_account D a t s) s p) (add_if_missing-Keeps now a t)

  pay-Keeps :
      (msg : String) (now : Time) (a t : String) (v : ℤ)
      → Keeps (ensure_account D now a t >>= λ _. annotate msg (increment_account_balance D a t v))
  pay-Keeps msg now a t v =
      bind-Keeps (ensure_account D now a t) (λ _. annotate msg (increment_account_balance D a t v))
        (ensure_account-Keeps now a t)
        (λ _. annotate-Keeps msg (increment_account_balance D a t v) (increment-Keeps a t v))

  pub handle_mint-Keeps : (now : Time) (pkg a : String) (v : ℤ) → Keeps (handle_mint D now pkg a v)
  unfolding handle_mint
  handle_mint-Keeps now pkg a v s p = elim (Bool-cases (str_eq a "")) [
    | inl empty ↦ rw empty p
    | inr named ↦ rw named (pay-Keeps "Failed to increment balance" now a pkg v s p)
  ]

  pub handle_burn-Keeps : (now : Time) (pkg a : String) (v : ℤ) → Keeps (handle_burn D now pkg a v)
  unfolding handle_burn
  handle_burn-Keeps now pkg a v s p = elim (Bool-cases (str_eq a "")) [
    | inl empty ↦ rw empty p
    | inr named ↦ rw named (pay-Keeps "Failed to decrement balance" now a pkg (neg64 v) s p)
  ]

  move_amount-Keeps : (pkg a b : String) (v : ℤ) → Keeps (move_amount D pkg a b v)
  move_amount-Keeps pkg a b v =
      bind-Keeps
        (annotate "Failed to decrement balance" (increment_account_balance D a pkg (neg64 v)))
        (λ _. annotate "Failed to increment balance" (increment_account_balance D b pkg v))
        (annotate-Keeps "Failed to decrement balance" (increment_account_balance D a pkg (neg64 v))
          (increment-Keeps a pkg (neg64 v)))
        (λ _.
          annotate-Keeps "Failed to increment balance" (increment_account_balance D b pkg v)
            (increment-Keeps b pkg v))

  pub handle_transfer-Keeps : (pkg a b : String) (v : ℤ) → Keeps (handle_transfer D pkg a b v)
  unfolding handle_transfer
  handle_transfer-Keeps pkg a b v =
      bind-Keeps (ensure_account D zero_time a pkg) (λ _. move_from D pkg a b v)
        (ensure_account-Keeps zero_time a pkg)
        (λ _.
          bind-Keeps (ensure_account D zero_time b pkg) (λ _. move_amount D pkg a b v)
            (ensure_account-Keeps zero_time b pkg) (λ _. move_amount-Keeps pkg a b v))
