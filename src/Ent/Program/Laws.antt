-- ===== src/Ent/Program/Laws.antt =====
-- A program that runs alone is the action that its parts make.
use gno_land_block_indexer.Prelude.{◌≡◌, refl, ◌∙◌, ap, String}
use gno_land_block_indexer.Ent.Error.{Result, ok, err}
use gno_land_block_indexer.Ent.Action.{Action}
use gno_land_block_indexer.Ent.Action
use gno_land_block_indexer.Ent.Program.{Program, ret, step, ◌>>=◌, annotate, run, statement}

module _ {S A : Type 0} where
  run-bind :
      {B : Type 0} (m : Program S A) (f : A → Program S B) (s : S)
      → run (m >>= f) s ≡ Action.◌>>=◌ (run m) (λ a. run (f a)) s
  unfolding run
  run-bind (ret (ok a)) f s = refl
  run-bind (ret (err e)) f s = refl
  run-bind (step next rest) f s = run-bind (rest s) f (next s)

  run-annotate :
      (msg : String) (m : Program S A) (s : S)
      → run (annotate msg m) s ≡ Action.annotate msg (run m) s
  unfolding run
  run-annotate msg (ret (ok a)) s = refl
  run-annotate msg (ret (err e)) s = refl
  run-annotate msg (step next rest) s = run-annotate msg (rest s) (next s)

  -- The program, run alone, is the action.
  abbrev pub Same : Program S A → Action S A → Type 0
  Same p act = (s : S) → run p s ≡ act s

  pub Same-statement : (act : Action S A) → Same (statement act) act
  unfolding run
  Same-statement act s = refl

  pub Same-annotate :
      (msg : String) (p : Program S A) (act : Action S A)
      → Same p act
      → Same (annotate msg p) (Action.annotate msg act)
  Same-annotate msg p act h s =
      run-annotate msg p s ∙ ap (λ out. Action.annotate msg (λ _. out) out.1) (h s)

  bound :
      {B : Type 0} (f : A → Program S B) (g : A → Action S B) (out : Result A × S)
      → ((a : A) (s : S) → run (f a) s ≡ g a s)
      → Action.◌>>=◌ (λ _. out) (λ a. run (f a)) out.1 ≡ Action.◌>>=◌ (λ _. out) g out.1
  bound f g (ok a, s) h = h a s
  bound f g (err e, s) h = refl

  pub Same-bind :
      {B : Type 0} (p : Program S A) (f : A → Program S B) (act : Action S A) (g : A → Action S B)
      → Same p act
      → ((a : A) (s : S) → run (f a) s ≡ g a s)
      → (s : S) → run (p >>= f) s ≡ Action.◌>>=◌ act g s
  Same-bind p f act g h k s =
      run-bind p f s
      ∙ ap (λ out. Action.◌>>=◌ (λ _. out) (λ a. run (f a)) out.1) (h s)
      ∙ bound f g (act s) k
