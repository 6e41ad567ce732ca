-- ===== src/Ent/Post.antt =====
-- Postconditions of actions: `Q` of what a call returns, and `E` of how it ends with an error.
use gno_land_block_indexer.Prelude.{String}
use gno_land_block_indexer.Ent.Error.{Result, ok, err}
use gno_land_block_indexer.Ent.Action.{Action, ◌>>=◌, annotate}

module _ {S : Type 0} where
  abbrev pub Post : {A : Type 0} → Result A × S → (A → S → Type 0) → (S → Type 0) → Type 0
  Post (ok a, s) Q E = Q a s
  Post (err e, s) Q E = E s

  -- The call returns no error; and it returns one.
  abbrev pub Returns : {A : Type 0} → Result A × S → (A → S → Type 0) → Type 0
  Returns out Q = Post out Q (λ _. ⊥)

  abbrev pub Fails : {A : Type 0} → Result A × S → (S → Type 0) → Type 0
  Fails out E = Post out (λ _ _. ⊥) E

  bind_out :
      {A B : Type 0} (Q : A → S → Type 0) (R : B → S → Type 0) (E : S → Type 0) (f : A → Action S B)
      (out : Result A × S)
      → Post out Q E
      → ((a : A) (s : S) → Q a s → Post (f a s) R E)
      → Post (((λ _. out) >>= f) out.1) R E
  bind_out Q R E f (ok a, s) h k = k a s h
  bind_out Q R E f (err e, s) h k = h

  pub Post-bind :
      {A B : Type 0} (Q : A → S → Type 0) (R : B → S → Type 0) (E : S → Type 0) (m : Action S A)
      (f : A → Action S B) (s : S)
      → Post (m s) Q E
      → ((a : A) (s' : S) → Q a s' → Post (f a s') R E)
      → Post ((m >>= f) s) R E
  Post-bind Q R E m f s h k = bind_out Q R E f (m s) h k

  annotate_out :
      {A : Type 0} (Q : A → S → Type 0) (E : S → Type 0) (msg : String) (out : Result A × S)
      → Post out Q E
      → Post (annotate msg (λ _. out) out.1) Q E
  annotate_out Q E msg (ok a, s) h = h
  annotate_out Q E msg (err e, s) h = h

  pub Post-annotate :
      {A : Type 0} (Q : A → S → Type 0) (E : S → Type 0) (msg : String) (m : Action S A) (s : S)
      → Post (m s) Q E
      → Post (annotate msg m s) Q E
  Post-annotate Q E msg m s h = annotate_out Q E msg (m s) h

  -- A weaker postcondition.
  pub Post-weaken :
      {A : Type 0} (Q R : A → S → Type 0) (E F : S → Type 0) (out : Result A × S)
      → Post out Q E
      → ((a : A) (s : S) → Q a s → R a s)
      → ((s : S) → E s → F s)
      → Post out R F
  Post-weaken Q R E F (ok a, s) h q e = q a s h
  Post-weaken Q R E F (err x, s) h q e = e s h
