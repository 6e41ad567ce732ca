-- ===== src/EventProcessor/Process/Laws.antt =====
-- Processing refines the ideal ledger: where it returns no error, the accounts hold the balances
-- that the ledger has.
use gno_land_block_indexer.Prelude.{
  ◌≡◌, ◌≢◌, ◌∙◌, inl, inr, true, not, String, List, ℤ, neg64, str_eq, eq_iff, arith, Bool-cases,
}
use gno_land_block_indexer.Float64.{of_int64}
use gno_land_block_indexer.Text.{to_lower}
use gno_land_block_indexer.Model.{Time, Event}
use gno_land_block_indexer.Ent.Action.{Action, annotate}
use gno_land_block_indexer.Ent.Post.{Post, Post-annotate, Post-weaken}
use gno_land_block_indexer.Ent.Tables.{Tables, AccountRow}
use gno_land_block_indexer.Ent.Database.{Database, IsLawful}
use gno_land_block_indexer.Ent.Balances.{
  balance, exists_account, credit, ensured, balance-credit_self, balance-credit_ne, balance-ensured,
  exists-ensured, exists-ensured_other, exists-credit,
}
use gno_land_block_indexer.EventProcessor.Attributes.{Parsed}
use gno_land_block_indexer.EventProcessor.Handlers.{handle_mint, handle_burn, handle_transfer}
use gno_land_block_indexer.EventProcessor.Handlers.Laws.{
  paid, moved, both, handle_mint-Post, handle_burn-Post, handle_transfer-Post,
}
use gno_land_block_indexer.EventProcessor.Ledger.{Ledger, pay, apply_parsed, names_parties}
use gno_land_block_indexer.EventProcessor.Process.{dispatch}

-- The accounts hold exactly the balances of the ledger.
abbrev pub Agrees : List AccountRow → Ledger → Type 0
Agrees rs l = (b u : String) → balance b u rs ≡ l b u

credit-Agrees :
    (a t : String) (v : ℤ) (rs : List AccountRow) (l : Ledger)
    → exists_account a t rs ≡ true
    → Agrees rs l
    → Agrees (credit a t (of_int64 v) rs) (pay a t v l)
credit-Agrees a t v rs l e h b u = ground (
  arith,
  h b u,
  balance-credit_self a t (of_int64 v) rs e,
  balance-credit_ne a t b u (of_int64 v) rs,
  eq_iff a b,
  eq_iff t u,
)

ensured-Agrees :
    (a t : String) (rs : List AccountRow) (l : Ledger) → Agrees rs l → Agrees (ensured a t rs) l
ensured-Agrees a t rs l h b u = balance-ensured a t b u rs ∙ h b u

paid-Agrees :
    (a t : String) (v : ℤ) (rs : List AccountRow) (l : Ledger)
    → Agrees rs l
    → Agrees (paid a t v rs) (pay a t v l)
paid-Agrees a t v rs l h =
    credit-Agrees a t v (ensured a t rs) l (exists-ensured a t rs) (ensured-Agrees a t rs l h)

moved-Agrees :
    (a b t : String) (v : ℤ) (rs : List AccountRow) (l : Ledger)
    → Agrees rs l
    → Agrees (moved a b t v rs) (pay b t v (pay a t (neg64 v) l))
moved-Agrees a b t v rs l h =
    let there = exists-ensured_other a t b t (ensured a t rs) (exists-ensured a t rs) in
    let here =
      exists-credit b t a t (of_int64 (neg64 v)) (both a b t rs)
      ∙ exists-ensured b t (ensured a t rs) in
    credit-Agrees b t v (credit a t (of_int64 (neg64 v)) (both a b t rs)) (pay a t (neg64 v) l) here
      (credit-Agrees a t (neg64 v) (both a b t rs) l there
        (ensured-Agrees b t (ensured a t rs) l (ensured-Agrees a t rs l h)))

module _ (D : Database) (L : IsLawful D) where
  open D use {State, tables}

  -- The balances in the database are those of the ledger.
  abbrev pub Shows : Ledger → State → Type 0
  Shows l s = Agrees (tables s).accounts l

  abbrev pub Any : State → Type 0
  Any s = Unit

  shown :
      (ts : Tables) (rs : List AccountRow) (l : Ledger) (s : State)
      → tables s ≡ record ts { accounts = rs }
      → Agrees rs l
      → Shows l s
  shown ts rs l s e h = rw e h

  filled_ne : (a : String) → not (str_eq a "") ≡ true → a ≢ ""
  filled_ne a h = ground (arith, eq_iff a "")

  annotated-Shows :
      (msg : String) (rs : List AccountRow) (l : Ledger) (s : State) (E : State → Type 0)
      (act : Action State (Unit {0}))
      → Agrees rs l
      → Post (act s) (λ _ s'. tables s' ≡ record (tables s) { accounts = rs }) E
      → Post (annotate msg act s) (λ _ s'. Shows l s') Any
  annotated-Shows msg rs l s E act a h =
      Post-weaken _ _ _ _ (annotate msg act s) (Post-annotate _ _ msg act s h)
        (λ _ s' k. shown (tables s) rs l s' k a) (λ s' k. tt)

  pub dispatch-Shows :
      (now : Time) (e : Event) (p : Parsed) (l : Ledger) (s : State)
      → names_parties e p ≡ true
      → Shows l s
      → Post (dispatch D now e p s) (λ _ s'. Shows (apply_parsed e p l) s') Any
  unfolding dispatch
  dispatch-Shows now e p l s named h =
      let f = to_lower e.func in
      let rs = (tables s).accounts in
      let t = e.pkg_path in
      let a = p.from_address in
      let b = p.to_address in
      let v = p.num_value in
      elim (Bool-cases (str_eq f "mint")) [
        | inl mint ↦ rw mint (
            annotated-Shows "Failed to handle mint event" (paid b t v rs) (pay b t v l) s _
              (handle_mint D now t b v) (paid-Agrees b t v rs l h)
              (handle_mint-Post D L now t b v s (filled_ne b (ground arith))
                (filled_ne t (ground arith))))
        | inr m ↦ elim (Bool-cases (str_eq f "burn")) [
          | inl burn ↦
              rw (m, burn)
                (annotated-Shows "Failed to handle burn event" (paid a t (neg64 v) rs)
                  (pay a t (neg64 v) l) s _ (handle_burn D now t a v)
                  (paid-Agrees a t (neg64 v) rs l h)
                  (handle_burn-Post D L now t a v s (filled_ne a (ground arith))
                    (filled_ne t (ground arith))))
          | inr b' ↦ elim (Bool-cases (str_eq f "transfer")) [
            | inl move ↦
                rw (m, b', move)
                  (annotated-Shows "Failed to handle transfer event" (moved a b t v rs)
                    (pay b t v (pay a t (neg64 v) l)) s _ (handle_transfer D t a b v)
                    (moved-Agrees a b t v rs l h)
                    (handle_transfer-Post D L t a b v s (filled_ne a (ground arith))
                      (filled_ne b (ground arith)) (filled_ne t (ground arith))))
            | inr other ↦ rw (m, b', other) h
          ]
        ]
      ]
