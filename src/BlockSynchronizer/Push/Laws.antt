-- ===== src/BlockSynchronizer/Push/Laws.antt =====
-- The channel between the subscription and the workers, under every interleaving.
use gno_land_block_indexer.Prelude.{
  ℕ, suc, ◌+◌, ◌≤◌, ◌<◌, ◌≡◌, refl, sym, ◌∙◌, ap, true, false, Option, none, some, List, [], ◌∷◌,
  ◌++◌, append_assoc, Bool, keep, length, length-append, ltb, arith, Bool-cases, inl, inr,
}
use gno_land_block_indexer.Model.{Block}
use gno_land_block_indexer.Ent.Error.{Result, ok, err, cancelled}
use gno_land_block_indexer.BlockSynchronizer.Push.{
  work_capacity, Pool, start, hand_over, Move, receive, close_incoming, context_done, work,
  receive_from, close_at, work_from, main_move, move, schedule,
}

-- The channel keeps its bound; by every test there are as many blocks of each kind as at the start,
-- so none is lost and none doubled; the workers receive the blocks in the
-- order of the subscription, if none was dropped; and no more blocks than the channel holds are safe.
-- How many of the blocks pass a test.
abbrev pub count : (Block → Bool) → List Block → ℕ
count q l = length (keep q l)

count_cons :
    (q : Block → Bool) (b : Block) (l : List Block) → count q (b ∷ l) ≡ count q (b ∷ []) + count q l
count_cons q b l = elim (Bool-cases (q b)) [
  | inl y ↦ rw y (omega arith)
  | inr n ↦ rw n (omega arith)
]

count-append :
    (q : Block → Bool) (xs ys : List Block) → count q (xs ++ ys) ≡ count q xs + count q ys
count-append q [] ys = omega arith
count-append q (x ∷ xs) ys =
    omega (arith, count_cons q x (xs ++ ys), count_cons q x xs, count-append q xs ys)

count_all : (l : List Block) → count (λ _. true) l ≡ length l
count_all [] = refl
count_all (b ∷ l) = ap suc (count_all l)

count_of_eq :
    (q : Block → Bool) (l : List Block) (b : Block) (rest : List Block)
    → l ≡ b ∷ rest
    → count q l ≡ count q (b ∷ []) + count q rest
count_of_eq q l b rest e = ap (count q) e ∙ count_cons q b rest

pub record IsFair (blocks : List Block) (p : Pool) : Type 0 where
  pub bounded : length p.work ≤ work_capacity
  pub counted :
      (q : Block → Bool)
      → count q p.taken + count q p.work + count q p.dropped + count q p.incoming ≡ count q blocks
  pub ordered : p.dropped ≡ [] → p.taken ++ (p.work ++ p.incoming) ≡ blocks
  pub spared : length blocks ≤ work_capacity → p.dropped ≡ []

snoc_ne {ℓ} : {A : Type ℓ} (xs : List A) (x : A) → xs ++ x ∷ [] ≡ [] → ⊥
snoc_ne [] x e = cc
snoc_ne (y ∷ xs) x e = cc

length_of_eq {ℓ} :
    {A : Type ℓ} (l : List A) (x : A) (rest : List A) → l ≡ x ∷ rest → length l ≡ suc (length rest)
length_of_eq l x rest e = ap length e

full_lem : (n : ℕ) → ltb n work_capacity ≡ false → work_capacity ≤ n
full_lem n h = ground arith

free_lem : (n : ℕ) → ltb n work_capacity ≡ true → n < work_capacity
free_lem n h = ground arith

module _ (blocks : List Block) where
  overfull :
      (p : Pool) (b : Block) (rest : List Block)
      → IsFair blocks p
      → p.incoming ≡ b ∷ rest
      → work_capacity ≤ length p.work
      → length blocks ≤ work_capacity
      → ⊥
  overfull p b rest f e full small = omega (
    arith,
    f.counted (λ _. true),
    count_all p.work,
    count_all p.incoming,
    count_all blocks,
    length_of_eq p.incoming b rest e,
  )

  hand_over-IsFair :
      (p : Pool) (b : Block) (rest : List Block)
      → IsFair blocks p
      → p.incoming ≡ b ∷ rest
      → IsFair blocks (hand_over p b rest)
  hand_over-IsFair p b rest f e = elim (Bool-cases (ltb (length p.work) work_capacity)) [
    | inl y ↦ rw y (record {
      bounded = omega (arith, length-append p.work (b ∷ []), free_lem (length p.work) y);
      counted = λ q.
          omega
            (arith, f.counted q, count-append q p.work (b ∷ []), count_of_eq q p.incoming b rest e);
      ordered = λ d.
          ap (λ l. p.taken ++ l) (append_assoc p.work (b ∷ []) rest)
          ∙ ap (λ l. p.taken ++ (p.work ++ l)) (sym e)
          ∙ f.ordered d;
      spared = f.spared;
    })
    | inr n ↦ rw n (record {
      bounded = f.bounded;
      counted = λ q. omega (
        arith,
        f.counted q,
        count-append q p.dropped (b ∷ []),
        count_of_eq q p.incoming b rest e,
      );
      ordered = λ d. absurd (snoc_ne p.dropped b d);
      spared = λ small. absurd (overfull p b rest f e (full_lem (length p.work) n) small);
    })
  ]

  work_from-IsFair :
      (p : Pool) (l : List Block) → IsFair blocks p → p.work ≡ l → IsFair blocks (work_from p l)
  work_from-IsFair p [] f e = f
  work_from-IsFair p (b ∷ rest) f e = record {
    bounded = omega (arith, f.bounded, length_of_eq p.work b rest e);
    counted = λ q.
        omega (arith, f.counted q, count-append q p.taken (b ∷ []), count_of_eq q p.work b rest e);
    ordered = λ d.
        append_assoc p.taken (b ∷ []) (rest ++ p.incoming)
        ∙ ap (λ l. p.taken ++ (l ++ p.incoming)) (sym e)
        ∙ f.ordered d;
    spared = f.spared;
  }

  receive_from-IsFair :
      (p : Pool) (l : List Block)
      → IsFair blocks p
      → p.incoming ≡ l
      → IsFair blocks (receive_from p l)
  receive_from-IsFair p [] f e = f
  receive_from-IsFair p (b ∷ rest) f e = hand_over-IsFair p b rest f e

  with_result :
      (p : Pool) (r : Option (Result (Unit {0})))
      → IsFair blocks p
      → IsFair blocks (record p { result = r })
  with_result p r f = record {
    bounded = f.bounded;
    counted = f.counted;
    ordered = f.ordered;
    spared = f.spared;
  }

  close_at-IsFair : (p : Pool) (l : List Block) → IsFair blocks p → IsFair blocks (close_at p l)
  close_at-IsFair p [] f = with_result p (some (ok tt)) f
  close_at-IsFair p (b ∷ rest) f = f

  main_move-IsFair :
      (p : Pool) (r : Option (Result (Unit {0}))) (m : Move)
      → IsFair blocks p
      → IsFair blocks (main_move p r m)
  main_move-IsFair p none receive f = receive_from-IsFair p p.incoming f refl
  main_move-IsFair p none close_incoming f = close_at-IsFair p p.incoming f
  main_move-IsFair p none context_done f = with_result p (some (err cancelled)) f
  main_move-IsFair p none work f = work_from-IsFair p p.work f refl
  main_move-IsFair p (some r) receive f = f
  main_move-IsFair p (some r) close_incoming f = f
  main_move-IsFair p (some r) context_done f = f
  main_move-IsFair p (some r) work f = work_from-IsFair p p.work f refl

  scheduled : (ms : List Move) (p : Pool) → IsFair blocks p → IsFair blocks (schedule p ms)
  unfolding schedule move
  scheduled [] p f = f
  scheduled (m ∷ ms) p f = scheduled ms (move p m) (main_move-IsFair p p.result m f)

-- Under every interleaving of the subscription's loop and the workers, the channel holds a thousand
-- blocks at most; whatever Boolean test one puts to the blocks, as many of those taken, waiting, dropped
-- and still to come pass it, together, as of those at the start; the workers receive the blocks in order
-- as long as none was dropped; and of at most a thousand blocks none is dropped.
pub schedule-IsFair :
    (blocks : List Block) (ms : List Move) → IsFair blocks (schedule (start blocks) ms)
schedule-IsFair blocks ms = scheduled blocks ms (start blocks) (record {
  bounded = omega arith;
  counted = λ q. omega arith;
  ordered = λ e. refl;
  spared = λ small. refl;
})
