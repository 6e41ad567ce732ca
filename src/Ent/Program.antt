-- ===== src/Ent/Program.antt =====
-- Go code that calls the database, statement by statement: between two statements of one goroutine
-- those of others may run.
pub mod Laws
use gno_land_block_indexer.Prelude.{String}
use gno_land_block_indexer.Ent.Error.{Error, Result, ok, err, wrap}
use gno_land_block_indexer.Ent.Action.{Action}

-- It has returned, or it runs a statement next: what that makes of the database, and how the code goes
-- on after it.
pub data Program (S A : Type 0) : Type 0 where
  ret : Result A → Program S A
  step : (S → S) → (S → Program S A) → Program S A

module _ {S : Type 0} where
  abbrev pub pure : {A : Type 0} → A → Program S A
  pure a = ret (ok a)

  abbrev pub fail : {A : Type 0} → Error → Program S A
  fail e = ret (err e)

  -- A call that runs one statement.
  abbrev pub statement : {A : Type 0} → Action S A → Program S A
  statement act = step (λ s. (act s).1) (λ s. ret (act s).0)

  infixl 5 ◌>>=◌ ◌>>◌
  abbrev pub ◌>>=◌ : {A B : Type 0} → Program S A → (A → Program S B) → Program S B
  ret (ok a) >>= f = f a
  ret (err e) >>= f = ret (err e)
  step next rest >>= f = step next (λ s. rest s >>= f)

  abbrev pub ◌>>◌ : {A B : Type 0} → Program S A → Program S B → Program S B
  m >> k = m >>= λ _. k

  -- `if err != nil { return Errorf(m, err) }`
  abbrev pub annotate : {A : Type 0} → String → Program S A → Program S A
  annotate m (ret (ok a)) = ret (ok a)
  annotate m (ret (err e)) = ret (err (wrap m e))
  annotate m (step next rest) = step next (λ s. annotate m (rest s))

  -- The program alone, to its end.
  unfoldable pub run : {A : Type 0} → Program S A → Action S A
  run (ret r) s = (r, s)
  run (step next rest) s = run (rest s) (next s)

  -- The next statement, if there is one.
  abbrev pub advance : {A : Type 0} → Program S A → S → Program S A × S
  advance (ret r) s = (ret r, s)
  advance (step next rest) s = (rest s, next s)
