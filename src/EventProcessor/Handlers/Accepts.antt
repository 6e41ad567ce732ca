-- ===== src/EventProcessor/Handlers/Accepts.antt =====
-- When a mint succeeds: the primary key of the accounts covers the address alone, so an address
-- that holds one token is closed to every other.
use gno_land_block_indexer.Prelude.{
  ◌≡◌, ◌≢◌, refl, inl, inr, true, false, String, Option, none, some, ℤ, str_eq, eq_iff, arith,
  Bool-cases,
}
use gno_land_block_indexer.Model.{Time, Account}
use gno_land_block_indexer.Ent.Error.{Result, ok, err}
use gno_land_block_indexer.Ent.Action.{annotate, ◌>>=◌}
use gno_land_block_indexer.Ent.Post.{Returns, Fails, Post-bind, Post-annotate, Post-weaken}
use gno_land_block_indexer.Ent.Tables.{Tables, has_account}
use gno_land_block_indexer.Ent.Database.{Database, IsLawful, IsReliable}
use gno_land_block_indexer.Ent.Balances.{exists_account, ensured, UniqueAddresses, is_open}
use gno_land_block_indexer.Repository.Accounts.{add_account, get_account, increment_account_balance}
use gno_land_block_indexer.Repository.Accounts.Laws.{is_found, get_account-exists}
use gno_land_block_indexer.Repository.Accounts.Answers.{
  add_account-Fails, get_account-ok, add_account-Returns, increment_account_balance-Returns,
}
use gno_land_block_indexer.EventProcessor.Handlers.{
  new_account, add_if_missing, ensure_account, handle_mint,
}
use gno_land_block_indexer.EventProcessor.Handlers.Laws.{Holds, paid}

module _ (D : Database) (L : IsLawful D) where
  open D use {State, tables}

  looked_missing :
      (now : Time) (a t : String) (s : State) (r : Result (Option Account))
      → a ≢ ""
      → t ≢ ""
      → has_account a (tables s).accounts ≡ true
      → exists_account a t (tables s).accounts ≡ false
      → get_account D a t s ≡ r
      → Fails (((λ s. (r, s)) >>= add_if_missing D now a t) s) (λ s'. tables s' ≡ tables s)
  looked_missing now a t s (err e) ha ht taken other got = refl
  looked_missing now a t s (ok none) ha ht taken other got =
      Post-annotate _ _ "Failed to add account" (add_account D (new_account now a t)) s
        (add_account-Fails D L (new_account now a t) s taken)
  looked_missing now a t s (ok (some acc)) ha ht taken other got =
      ground (arith, get_account-exists D L a t s (some acc) ha ht got)

  ensure_account-Fails :
      (now : Time) (a t : String) (s : State)
      → a ≢ ""
      → t ≢ ""
      → has_account a (tables s).accounts ≡ true
      → exists_account a t (tables s).accounts ≡ false
      → Fails (ensure_account D now a t s) (λ s'. tables s' ≡ tables s)
  unfolding ensure_account
  ensure_account-Fails now a t s ha ht taken other =
      looked_missing now a t s (get_account D a t s) ha ht taken other refl

  -- On a lawful database, a mint of a named token to a named address that has an account, but none for that token, always returns an
  -- error, and changes nothing.
  pub handle_mint-Fails :
      (now : Time) (pkg a : String) (v : ℤ) (s : State)
      → a ≢ ""
      → pkg ≢ ""
      → has_account a (tables s).accounts ≡ true
      → exists_account a pkg (tables s).accounts ≡ false
      → Fails (handle_mint D now pkg a v s) (λ s'. tables s' ≡ tables s)
  unfolding handle_mint
  handle_mint-Fails now pkg a v s ha ht taken other = elim (Bool-cases (str_eq a "")) [
    | inl empty ↦ absurd (ha ((eq_iff a "").0 empty))
    | inr named ↦ rw named (
        Post-bind (λ _ _. ⊥) (λ _ _. ⊥) _ (ensure_account D now a pkg)
          (λ _. annotate "Failed to increment balance" (increment_account_balance D a pkg v)) s
          (ensure_account-Fails now a pkg s ha ht taken other) (λ _ s' k. absurd k))
  ]

  module _ (R : IsReliable D) where
    looked_open :
        (now : Time) (a t : String) (s : State) (found : Option Account)
        → a ≢ ""
        → t ≢ ""
        → is_open a t (tables s).accounts ≡ true
        → is_found found ≡ exists_account a t (tables s).accounts
        → Returns
            (add_if_missing D now a t found s)
            (λ _ s'. Holds D L (tables s) (ensured a t (tables s).accounts) s')
    looked_open now a t s (some acc) ha ht free looked = ground arith
    looked_open now a t s none ha ht free looked =
        Post-weaken _ _ _ _
          (annotate "Failed to add account" (add_account D (new_account now a t)) s)
          (Post-annotate _ _ "Failed to add account" (add_account D (new_account now a t)) s
            (add_account-Returns D L R (new_account now a t) s ha ht (ground arith)))
          (λ _ s' h. ground arith) (λ s' h. h)

    answered :
        (now : Time) (a t : String) (s : State) (r : Result (Option Account))
        (found : Option Account) (Q : Unit {0} → State → Type 0)
        → r ≡ ok found
        → Returns (add_if_missing D now a t found s) Q
        → Returns (((λ s. (r, s)) >>= add_if_missing D now a t) s) Q
    answered now a t s r found Q e h = rw e h

    pub ensure_account-Returns :
        (now : Time) (a t : String) (s : State)
        → a ≢ ""
        → t ≢ ""
        → UniqueAddresses (tables s).accounts
        → is_open a t (tables s).accounts ≡ true
        → Returns
            (ensure_account D now a t s)
            (λ _ s'. Holds D L (tables s) (ensured a t (tables s).accounts) s')
    unfolding ensure_account
    ensure_account-Returns now a t s ha ht u free =
        let answer = get_account-ok D L R a t s ha ht u in
        answered now a t s (get_account D a t s) answer.0 _ answer.1 (
          looked_open now a t s answer.0 ha ht free
            (get_account-exists D L a t s answer.0 ha ht answer.1))

    increment-Returns :
        (msg a t : String) (v : ℤ) (ts : Tables) (s : State)
        → Holds D L ts (ensured a t ts.accounts) s
        → Returns
            (annotate msg (increment_account_balance D a t v) s)
            (λ _ s'. Holds D L ts (paid a t v ts.accounts) s')
    increment-Returns msg a t v ts s h =
        Post-weaken _ _ _ _ (annotate msg (increment_account_balance D a t v) s)
          (Post-annotate _ _ msg (increment_account_balance D a t v) s
            (increment_account_balance-Returns D L R a t v s))
          (λ _ s' k. ground arith) (λ s' k. k)

    -- On a lawful database that does not fail and has unique addresses, a mint of a named token to a
    -- named address that has an account for the token, or has no account yet, returns no error and credits the account.
    pub handle_mint-Returns :
        (now : Time) (pkg a : String) (v : ℤ) (s : State)
        → a ≢ ""
        → pkg ≢ ""
        → UniqueAddresses (tables s).accounts
        → is_open a pkg (tables s).accounts ≡ true
        → Returns
            (handle_mint D now pkg a v s)
            (λ _ s'. Holds D L (tables s) (paid a pkg v (tables s).accounts) s')
    unfolding handle_mint
    handle_mint-Returns now pkg a v s ha ht u free = elim (Bool-cases (str_eq a "")) [
      | inl empty ↦ absurd (ha ((eq_iff a "").0 empty))
      | inr named ↦ rw named (
          Post-bind (λ _ s'. Holds D L (tables s) (ensured a pkg (tables s).accounts) s') _ _
            (ensure_account D now a pkg)
            (λ _. annotate "Failed to increment balance" (increment_account_balance D a pkg v)) s
            (ensure_account-Returns now a pkg s ha ht u free)
            (λ _ s' k. increment-Returns "Failed to increment balance" a pkg v (tables s) s' k))
    ]
