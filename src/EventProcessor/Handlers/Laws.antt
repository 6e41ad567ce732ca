-- ===== src/EventProcessor/Handlers/Laws.antt =====
-- What the event handlers do to the accounts, on success and on error.
use gno_land_block_indexer.Prelude.{
  ◌≡◌, ◌≢◌, refl, ◌∙◌, ◌⊎◌, inl, inr, String, Option, none, some, List, ℤ, neg64, str_eq, eq_iff,
  arith, Bool-cases,
}
use gno_land_block_indexer.Float64.{of_int64}
use gno_land_block_indexer.Model.{Time, Account, zero_time}
use gno_land_block_indexer.Ent.Error.{Result, ok, err}
use gno_land_block_indexer.Ent.Action.{reads, annotate, ◌>>◌}
use gno_land_block_indexer.Ent.Post.{Post, Post-bind, Post-annotate, Post-weaken}
use gno_land_block_indexer.Ent.Tables.{Tables, AccountRow}
use gno_land_block_indexer.Ent.Database.{Database, IsLawful}
use gno_land_block_indexer.Ent.Balances.{exists_account, credit, ensured}
use gno_land_block_indexer.Repository.Accounts.{add_account, get_account, increment_account_balance}
use gno_land_block_indexer.Repository.Accounts.Laws.{
  is_found, get_account-exists, add_account-Applied, increment_account_balance-Applied,
}
use gno_land_block_indexer.EventProcessor.Handlers.{
  new_account, add_if_missing, ensure_account, handle_mint, handle_burn, move_amount, move_from,
  handle_transfer,
}

abbrev pub with_accounts : Tables → List AccountRow → Tables
with_accounts ts rs = record ts { accounts = rs }

-- The accounts after an address was credited, its account created if it was missing.
abbrev pub paid : String → String → ℤ → List AccountRow → List AccountRow
paid a t v rs = credit a t (of_int64 v) (ensured a t rs)

-- Both accounts, created where they were missing.
abbrev pub both : String → String → String → List AccountRow → List AccountRow
both a b t rs = ensured b t (ensured a t rs)

abbrev pub moved : String → String → String → ℤ → List AccountRow → List AccountRow
moved a b t v rs = credit b t (of_int64 v) (credit a t (of_int64 (neg64 v)) (both a b t rs))

module _ (D : Database) (L : IsLawful D) where
  open D use {State, tables}

  -- The state holds the tables `ts` with the accounts `rs`.
  abbrev pub Holds : Tables → List AccountRow → State → Type 0
  Holds ts rs s = tables s ≡ with_accounts ts rs

  abbrev pub Looked : String → String → Tables → Option Account → State → Type 0
  Looked a t ts found s = (tables s ≡ ts) × (is_found found ≡ exists_account a t ts.accounts)

  lookup_out :
      (a t : String) (s : State) (r : Result (Option Account))
      → a ≢ ""
      → t ≢ ""
      → get_account D a t s ≡ r
      → Post (r, s) (Looked a t (tables s)) (λ s'. tables s' ≡ tables s)
  lookup_out a t s (ok found) ha ht e = (refl, get_account-exists D L a t s found ha ht e)
  lookup_out a t s (err x) ha ht e = refl

  pub missing_added :
      (now : Time) (a t : String) (ts : Tables) (found : Option Account) (s : State)
      → Looked a t ts found s
      → Post
          (add_if_missing D now a t found s)
          (λ _ s'. Holds ts (ensured a t ts.accounts) s')
          (λ s'. tables s' ≡ ts)
  missing_added now a t ts (some acc) s (same, found) = ground arith
  missing_added now a t ts none s (same, found) =
      Post-weaken _ _ _ _ (annotate "Failed to add account" (add_account D (new_account now a t)) s)
        (Post-annotate _ _ "Failed to add account" (add_account D (new_account now a t)) s
          (add_account-Applied D L (new_account now a t) s))
        (λ _ s' h. ground arith) (λ s' h. h ∙ same)

  -- A lookup creates the account if it is missing, with no balance; an error changes nothing.
  pub ensure_account-Post :
      (now : Time) (a t : String) (s : State)
      → a ≢ ""
      → t ≢ ""
      → Post
          (ensure_account D now a t s)
          (λ _ s'. Holds (tables s) (ensured a t (tables s).accounts) s')
          (λ s'. tables s' ≡ tables s)
  unfolding ensure_account
  ensure_account-Post now a t s ha ht =
      Post-bind (Looked a t (tables s)) _ _ (reads (get_account D a t)) (add_if_missing D now a t) s
        (lookup_out a t s (get_account D a t s) ha ht refl)
        (λ found s' h. missing_added now a t (tables s) found s' h)

  increment-Post :
      (msg a t : String) (v : ℤ) (ts : Tables) (rs : List AccountRow) (s : State)
      → Holds ts rs s
      → Post
          (annotate msg (increment_account_balance D a t v) s)
          (λ _ s'. Holds ts (credit a t (of_int64 v) rs) s')
          (λ s'. Holds ts rs s')
  increment-Post msg a t v ts rs s h =
      Post-weaken _ _ _ _ (annotate msg (increment_account_balance D a t v) s)
        (Post-annotate _ _ msg (increment_account_balance D a t v) s
          (increment_account_balance-Applied D L a t v s))
        (λ _ s' k. ground arith) (λ s' k. k ∙ h)

  -- An error leaves the accounts as they were, or with the missing account created.
  abbrev pub Unpaid : Tables → String → String → State → Type 0
  Unpaid ts a t s = Holds ts ts.accounts s ⊎ Holds ts (ensured a t ts.accounts) s

  pay-Post :
      (msg : String) (now : Time) (a t : String) (v : ℤ) (s : State)
      → a ≢ ""
      → t ≢ ""
      → Post
          ((ensure_account D now a t >> annotate msg (increment_account_balance D a t v)) s)
          (λ _ s'. Holds (tables s) (paid a t v (tables s).accounts) s')
          (Unpaid (tables s) a t)
  pay-Post msg now a t v s ha ht =
      Post-bind (λ _ s'. Holds (tables s) (ensured a t (tables s).accounts) s') _ _
        (ensure_account D now a t) (λ _. annotate msg (increment_account_balance D a t v)) s
        (Post-weaken _ _ _ _ (ensure_account D now a t s) (ensure_account-Post now a t s ha ht)
          (λ _ s' h. h) (λ s' h. inl h))
        (λ _ s' h.
          Post-weaken _ _ _ _ (annotate msg (increment_account_balance D a t v) s')
            (increment-Post msg a t v (tables s) (ensured a t (tables s).accounts) s' h)
            (λ _ s'' k. k) (λ s'' k. inr k))

  -- A mint to an address credits exactly its account for the token, and creates it if it is missing.
  pub handle_mint-Post :
      (now : Time) (pkg a : String) (v : ℤ) (s : State)
      → a ≢ ""
      → pkg ≢ ""
      → Post
          (handle_mint D now pkg a v s)
          (λ _ s'. Holds (tables s) (paid a pkg v (tables s).accounts) s')
          (Unpaid (tables s) a pkg)
  unfolding handle_mint
  handle_mint-Post now pkg a v s ha ht = elim (Bool-cases (str_eq a "")) [
    | inl empty ↦ absurd (ha ((eq_iff a "").0 empty))
    | inr named ↦ rw named (pay-Post "Failed to increment balance" now a pkg v s ha ht)
  ]

  -- On a lawful database, a burn of a named token debits exactly the named sender's account for it,
  -- and creates it if it is missing; an error leaves the accounts as they were, or with it created.
  pub handle_burn-Post :
      (now : Time) (pkg a : String) (v : ℤ) (s : State)
      → a ≢ ""
      → pkg ≢ ""
      → Post
          (handle_burn D now pkg a v s)
          (λ _ s'. Holds (tables s) (paid a pkg (neg64 v) (tables s).accounts) s')
          (Unpaid (tables s) a pkg)
  unfolding handle_burn
  handle_burn-Post now pkg a v s ha ht = elim (Bool-cases (str_eq a "")) [
    | inl empty ↦ absurd (ha ((eq_iff a "").0 empty))
    | inr named ↦ rw named (pay-Post "Failed to decrement balance" now a pkg (neg64 v) s ha ht)
  ]

  -- Where a transfer that failed may have left the accounts: the last is a debit with no credit.
  abbrev pub Unmoved : Tables → String → String → String → ℤ → State → Type 0
  Unmoved ts a b t v s =
      Holds ts ts.accounts s
      ⊎ (Holds ts (ensured a t ts.accounts) s
          ⊎ (Holds ts (both a b t ts.accounts) s
              ⊎ Holds ts (credit a t (of_int64 (neg64 v)) (both a b t ts.accounts)) s))

  debit_credit-Post :
      (a b t : String) (v : ℤ) (ts : Tables) (s : State)
      → Holds ts (both a b t ts.accounts) s
      → Post
          (move_amount D t a b v s)
          (λ _ s'. Holds ts (moved a b t v ts.accounts) s')
          (Unmoved ts a b t v)
  debit_credit-Post a b t v ts s h =
      Post-bind (λ _ s'. Holds ts (credit a t (of_int64 (neg64 v)) (both a b t ts.accounts)) s') _ _
        (annotate "Failed to decrement balance" (increment_account_balance D a t (neg64 v)))
        (λ _. annotate "Failed to increment balance" (increment_account_balance D b t v)) s
        (Post-weaken _ _ _ _
          (annotate "Failed to decrement balance" (increment_account_balance D a t (neg64 v)) s)
          (increment-Post "Failed to decrement balance" a t (neg64 v) ts (both a b t ts.accounts) s
            h)
          (λ _ s' k. k) (λ s' k. inr (inr (inl k))))
        (λ _ s' k.
          Post-weaken _ _ _ _
            (annotate "Failed to increment balance" (increment_account_balance D b t v) s')
            (increment-Post "Failed to increment balance" b t v ts
              (credit a t (of_int64 (neg64 v)) (both a b t ts.accounts)) s' k)
            (λ _ s'' j. j) (λ s'' j. inr (inr (inr j))))

  ensured_second-Post :
      (a b t : String) (v : ℤ) (ts : Tables) (s : State)
      → b ≢ ""
      → t ≢ ""
      → Holds ts (ensured a t ts.accounts) s
      → Post
          (ensure_account D zero_time b t s)
          (λ _ s'. Holds ts (both a b t ts.accounts) s')
          (Unmoved ts a b t v)
  ensured_second-Post a b t v ts s hb ht h =
      Post-weaken _ _ _ _ (ensure_account D zero_time b t s)
        (ensure_account-Post zero_time b t s hb ht) (λ _ s' k. ground arith)
        (λ s' k. inr (inl (k ∙ h)))

  move_from-Post :
      (a b t : String) (v : ℤ) (ts : Tables) (s : State)
      → b ≢ ""
      → t ≢ ""
      → Holds ts (ensured a t ts.accounts) s
      → Post
          (move_from D t a b v s)
          (λ _ s'. Holds ts (moved a b t v ts.accounts) s')
          (Unmoved ts a b t v)
  move_from-Post a b t v ts s hb ht h =
      Post-bind (λ _ s'. Holds ts (both a b t ts.accounts) s')
        (λ _ s'. Holds ts (moved a b t v ts.accounts) s') (Unmoved ts a b t v)
        (ensure_account D zero_time b t) (λ _. move_amount D t a b v) s
        (ensured_second-Post a b t v ts s hb ht h) (λ _ s' k. debit_credit-Post a b t v ts s' k)

  -- On a lawful database, a transfer of a named token between two named addresses debits the one and
  -- credits the other, and creates their accounts if they are missing; an error leaves the accounts as
  -- they were, or with one or both created, or also with the debit and no credit.
  pub handle_transfer-Post :
      (pkg a b : String) (v : ℤ) (s : State)
      → a ≢ ""
      → b ≢ ""
      → pkg ≢ ""
      → Post
          (handle_transfer D pkg a b v s)
          (λ _ s'. Holds (tables s) (moved a b pkg v (tables s).accounts) s')
          (Unmoved (tables s) a b pkg v)
  unfolding handle_transfer
  handle_transfer-Post pkg a b v s ha hb ht =
      Post-bind (λ _ s'. Holds (tables s) (ensured a pkg (tables s).accounts) s')
        (λ _ s'. Holds (tables s) (moved a b pkg v (tables s).accounts) s')
        (Unmoved (tables s) a b pkg v) (ensure_account D zero_time a pkg)
        (λ _. move_from D pkg a b v) s
        (Post-weaken _ _ _ _ (ensure_account D zero_time a pkg s)
          (ensure_account-Post zero_time a pkg s ha ht) (λ _ s' h. h) (λ s' h. inl h))
        (λ _ s' h. move_from-Post a b pkg v (tables s) s' hb ht h)
