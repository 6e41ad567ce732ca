-- ===== src/EventProcessor/Success/Events.antt =====
-- The handlers, and the loop over a transaction's events, on a database that does not fail.
use gno_land_block_indexer.Prelude.{
  ◌≡◌, ◌≢◌, inl, inr, String, List, [], ◌∷◌, ℤ, eq_iff, neg64, str_eq, Bool-cases,
}
use gno_land_block_indexer.Float64.{of_int64}
use gno_land_block_indexer.Model.{Time, Event, zero_time}
use gno_land_block_indexer.Ent.Action.{annotate, ◌>>=◌}
use gno_land_block_indexer.Ent.Post.{Returns, Post-bind, Post-annotate, Post-weaken}
use gno_land_block_indexer.Ent.Tables.{AccountRow}
use gno_land_block_indexer.Ent.Database.{Database, IsLawful, IsReliable}
use gno_land_block_indexer.Repository.Accounts.{increment_account_balance}
use gno_land_block_indexer.Repository.Accounts.Answers.{increment_account_balance-Returns}
use gno_land_block_indexer.EventProcessor.Attributes.{Parsed}
use gno_land_block_indexer.EventProcessor.Handlers.{
  ensure_account, handle_mint, handle_burn, handle_transfer, move_from, move_amount,
}
use gno_land_block_indexer.EventProcessor.Handlers.Accepts.{ensure_account-Returns}
use gno_land_block_indexer.EventProcessor.Process.{dispatch}
use gno_land_block_indexer.EventProcessor.Success.{
  IsFair, mint, burn, move, open_of_home, IsReady, IsReady-credit, IsReady-ensured,
}

module _ (home : String → String) (D : Database) (L : IsLawful D) (R : IsReliable D) where
  open D use {State, tables}

  abbrev pub Ready : List AccountRow → List String → State → Type 0
  Ready old known s = IsReady home old known (tables s).accounts

  ensure-Ready :
      (now : Time) (a t : String) (old : List AccountRow) (known : List String) (s : State)
      → a ≢ ""
      → t ≢ ""
      → t ≡ home a
      → Ready old known s
      → Returns (ensure_account D now a t s) (λ _ s'. Ready old (a ∷ known) s')
  ensure-Ready now a t old known s ha ht e h =
      Post-weaken _ _ _ _ (ensure_account D now a t s)
        (ensure_account-Returns D L R now a t s ha ht h.unique
          (open_of_home home a t (tables s).accounts h.homed e))
        (λ _ s' k. rw k (IsReady-ensured home a t old known (tables s).accounts e h)) (λ s' k. k)

  increment-Ready :
      (msg a t : String) (v : ℤ) (old : List AccountRow) (known : List String) (s : State)
      → Ready old known s
      → Returns (annotate msg (increment_account_balance D a t v) s) (λ _ s'. Ready old known s')
  increment-Ready msg a t v old known s h =
      Post-weaken _ _ _ _ (annotate msg (increment_account_balance D a t v) s)
        (Post-annotate _ _ msg (increment_account_balance D a t v) s
          (increment_account_balance-Returns D L R a t v s))
        (λ _ s' k. rw k (IsReady-credit home a t (of_int64 v) old known (tables s).accounts h))
        (λ s' k. k)

  pay-Ready :
      (now : Time) (msg a t : String) (v : ℤ) (old : List AccountRow) (s : State)
      → a ≢ ""
      → t ≢ ""
      → t ≡ home a
      → Ready old [] s
      → Returns
          ((ensure_account D now a t >>= λ _. annotate msg (increment_account_balance D a t v)) s)
          (λ _ s'. Ready old (a ∷ []) s')
  pay-Ready now msg a t v old s ha ht e h =
      Post-bind (λ _ s'. Ready old (a ∷ []) s') _ _ (ensure_account D now a t)
        (λ _. annotate msg (increment_account_balance D a t v)) s
        (ensure-Ready now a t old [] s ha ht e h)
        (λ _ s' k. increment-Ready msg a t v old (a ∷ []) s' k)

  handle_mint-Ready :
      (now : Time) (pkg a : String) (v : ℤ) (old : List AccountRow) (s : State)
      → a ≢ ""
      → pkg ≢ ""
      → pkg ≡ home a
      → Ready old [] s
      → Returns (handle_mint D now pkg a v s) (λ _ s'. Ready old (a ∷ []) s')
  unfolding handle_mint
  handle_mint-Ready now pkg a v old s ha ht e h = elim (Bool-cases (str_eq a "")) [
    | inl empty ↦ absurd (ha ((eq_iff a "").0 empty))
    | inr named ↦ rw named (pay-Ready now "Failed to increment balance" a pkg v old s ha ht e h)
  ]

  handle_burn-Ready :
      (now : Time) (pkg a : String) (v : ℤ) (old : List AccountRow) (s : State)
      → a ≢ ""
      → pkg ≢ ""
      → pkg ≡ home a
      → Ready old [] s
      → Returns (handle_burn D now pkg a v s) (λ _ s'. Ready old (a ∷ []) s')
  unfolding handle_burn
  handle_burn-Ready now pkg a v old s ha ht e h = elim (Bool-cases (str_eq a "")) [
    | inl empty ↦ absurd (ha ((eq_iff a "").0 empty))
    | inr named ↦
        rw named (pay-Ready now "Failed to decrement balance" a pkg (neg64 v) old s ha ht e h)
  ]

  move_amount-Ready :
      (pkg a b : String) (v : ℤ) (old : List AccountRow) (known : List String) (s : State)
      → Ready old known s
      → Returns (move_amount D pkg a b v s) (λ _ s'. Ready old known s')
  move_amount-Ready pkg a b v old known s h =
      Post-bind (λ _ s'. Ready old known s') _ _
        (annotate "Failed to decrement balance" (increment_account_balance D a pkg (neg64 v)))
        (λ _. annotate "Failed to increment balance" (increment_account_balance D b pkg v)) s
        (increment-Ready "Failed to decrement balance" a pkg (neg64 v) old known s h)
        (λ _ s' k. increment-Ready "Failed to increment balance" b pkg v old known s' k)

  handle_transfer-Ready :
      (pkg a b : String) (v : ℤ) (old : List AccountRow) (s : State)
      → a ≢ ""
      → b ≢ ""
      → pkg ≢ ""
      → pkg ≡ home a
      → pkg ≡ home b
      → Ready old [] s
      → Returns (handle_transfer D pkg a b v s) (λ _ s'. Ready old (b ∷ a ∷ []) s')
  unfolding handle_transfer
  handle_transfer-Ready pkg a b v old s ha hb ht ea eb h =
      Post-bind (λ _ s'. Ready old (a ∷ []) s') _ _ (ensure_account D zero_time a pkg)
        (λ _. move_from D pkg a b v) s (ensure-Ready zero_time a pkg old [] s ha ht ea h)
        (λ _ s' k.
          Post-bind (λ _ s'. Ready old (b ∷ a ∷ []) s') _ _ (ensure_account D zero_time b pkg)
            (λ _. move_amount D pkg a b v) s'
            (ensure-Ready zero_time b pkg old (a ∷ []) s' hb ht eb k)
            (λ _ s'' j. move_amount-Ready pkg a b v old (b ∷ a ∷ []) s'' j))

  -- The addresses that the event names.
  abbrev pub parties : {e : Event} {p : Parsed} → IsFair home e p → List String
  parties {e} {p} (mint f a b t) = p.to_address ∷ []
  parties {e} {p} (burn f a b t) = p.from_address ∷ []
  parties {e} {p} (move f a b t u) = p.to_address ∷ p.from_address ∷ []

  pub dispatch-Ready :
      (now : Time) (e : Event) (p : Parsed) (old : List AccountRow) (s : State)
      → e.pkg_path ≢ ""
      → (fair : IsFair home e p) → Ready old [] s
      → Returns (dispatch D now e p s) (λ _ s'. Ready old (parties fair) s')
  unfolding dispatch
  dispatch-Ready now e p old s ht (mint f none_from ha t) h = rw f (
      Post-annotate _ _ "Failed to handle mint event"
        (handle_mint D now e.pkg_path p.to_address p.num_value) s
        (handle_mint-Ready now e.pkg_path p.to_address p.num_value old s ha ht t h))
  dispatch-Ready now e p old s ht (burn f none_to ha t) h = rw f (
      Post-annotate _ _ "Failed to handle burn event"
        (handle_burn D now e.pkg_path p.from_address p.num_value) s
        (handle_burn-Ready now e.pkg_path p.from_address p.num_value old s ha ht t h))
  dispatch-Ready now e p old s ht (move f ha hb ta tb) h = rw f (
      Post-annotate _ _ "Failed to handle transfer event"
        (handle_transfer D e.pkg_path p.from_address p.to_address p.num_value) s
        (handle_transfer-Ready e.pkg_path p.from_address p.to_address p.num_value old s ha hb ht ta
          tb h))
