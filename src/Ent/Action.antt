-- ===== src/Ent/Action.antt =====
-- Go code that calls the database: it returns a result or an error, and the database's new state.
-- What was written before an error stays written.
use gno_land_block_indexer.Prelude.{String}
use gno_land_block_indexer.Ent.Error.{Error, Result, ok, err, wrap}

abbrev pub Action : Type 0 → Type 0 → Type 0
Action S A = S → Result A × S

module _ {S : Type 0} where
  abbrev pub pure : {A : Type 0} → A → Action S A
  pure a s = (ok a, s)

  abbrev pub fail : {A : Type 0} → Error → Action S A
  fail e s = (err e, s)

  -- A query, which leaves the state alone.
  abbrev pub reads : {A : Type 0} → (S → Result A) → Action S A
  reads q s = (q s, s)

  infixl 5 ◌>>=◌ ◌>>◌
  abbrev pub ◌>>=◌ : {A B : Type 0} → Action S A → (A → Action S B) → Action S B
  ◌>>=◌ m f s = let (r, s') = m s in elim r [ ok a ↦ f a s' | err e ↦ (err e, s') ]

  abbrev pub ◌>>◌ : {A B : Type 0} → Action S A → Action S B → Action S B
  m >> k = m >>= λ _. k

  -- `if err != nil { return Errorf(m, err) }`
  abbrev pub annotate : {A : Type 0} → String → Action S A → Action S A
  annotate m act s =
      let (r, s') = act s in elim r [ ok a ↦ (ok a, s') | err e ↦ (err (wrap m e), s') ]
