-- ===== src/Prelude/Lists.antt =====
-- Lists measured by native numbers, under the library's names, and filters by a Boolean test.
use Prim.Native.Nat.{ℕ, zero, suc, ◌+◌}
use mathlib.Core.Path.{◌≡◌, refl}
use mathlib.Core.Logic.{◌⊎◌, inl, inr}
use mathlib.Core.Bool.{Bool, true, false, ◌&&◌}
use mathlib.Core.List.{map, List, [], ◌∷◌, ◌++◌}
use native.Mathlib.Omega.{arith}
use gno_land_block_indexer.Prelude.Tests.{if◌then◌else◌, Bool-cases}

module _ {ℓ} {A : Type ℓ} where
  abbrev pub length : List A → ℕ
  length [] = 0
  length (x ∷ xs) = suc (length xs)

  abbrev pub take : ℕ → List A → List A
  take zero xs = []
  take (suc n) [] = []
  take (suc n) (x ∷ xs) = x ∷ take n xs

  abbrev pub drop : ℕ → List A → List A
  drop zero xs = xs
  drop (suc n) [] = []
  drop (suc n) (x ∷ xs) = drop n xs

  abbrev pub replicate : ℕ → A → List A
  replicate zero a = []
  replicate (suc n) a = a ∷ replicate n a

  -- The items that pass a Boolean test, in order.
  abbrev pub keep : (A → Bool) → List A → List A
  keep p [] = []
  keep p (x ∷ xs) = if p x then x ∷ keep p xs else keep p xs

  abbrev pub any : (A → Bool) → List A → Bool
  any p [] = false
  any p (x ∷ xs) = if p x then true else any p xs

  abbrev pub all : (A → Bool) → List A → Bool
  all p [] = true
  all p (x ∷ xs) = p x && all p xs

  pub length-append : (xs ys : List A) → length (xs ++ ys) ≡ length xs + length ys
  length-append [] ys = omega arith
  length-append (x ∷ xs) ys = omega (arith, length-append xs ys)

  pub any-append_false :
      (p : A → Bool) (xs : List A) (y : A)
      → any p xs ≡ false
      → p y ≡ false
      → any p (xs ++ y ∷ []) ≡ false
  any-append_false p [] y h k = ground arith
  any-append_false p (x ∷ xs) y h k = ground (arith, any-append_false p xs y)

-- A predicate that holds of each item; it computes to a tuple.
abbrev pub All {ℓ κ} : {A : Type ℓ} → (A → Type κ) → List A → Type κ
All P [] = Unit
All P (x ∷ xs) = P x × All P xs

pub All-append {ℓ κ} :
    {A : Type ℓ} (P : A → Type κ) (xs ys : List A) → All P xs → All P ys → All P (xs ++ ys)
All-append P [] ys left right = right
All-append P (x ∷ xs) ys (first, left) right = (first, All-append P xs ys left right)

pub All-map {ℓ κ} :
    {A : Type ℓ} (P Q : A → Type κ) (xs : List A) → ((x : A) → P x → Q x) → All P xs → All Q xs
All-map P Q [] f h = tt
All-map P Q (x ∷ xs) f h = (f x h.0, All-map P Q xs f h.1)

pub All-mapped {ℓ κ ι} :
    {A : Type ℓ} {B : Type κ} (f : A → B) (P : A → Type ι) (Q : B → Type ι) (xs : List A)
    → ((x : A) → P x → Q (f x))
    → All P xs
    → All Q (map f xs)
All-mapped f P Q [] g h = tt
All-mapped f P Q (x ∷ xs) g h = (g x h.0, All-mapped f P Q xs g h.1)

-- The item stands in the list.
abbrev pub Among : {A : Type 0} → A → List A → Type 0
Among a [] = ⊥
Among a (x ∷ xs) = (x ≡ a) ⊎ Among a xs

pub Among-append_left : {A : Type 0} (a : A) (xs ys : List A) → Among a xs → Among a (xs ++ ys)
Among-append_left a [] ys h = absurd h
Among-append_left a (x ∷ xs) ys (inl here) = inl here
Among-append_left a (x ∷ xs) ys (inr there) = inr (Among-append_left a xs ys there)

pub Among-append_last : {A : Type 0} (a : A) (xs : List A) → Among a (xs ++ a ∷ [])
Among-append_last a [] = inl refl
Among-append_last a (x ∷ xs) = inr (Among-append_last a xs)

pub Among-keep :
    {A : Type 0} (p : A → Bool) (a : A) (xs : List A)
    → p a ≡ true
    → Among a xs
    → Among a (keep p xs)
Among-keep p a [] y h = absurd h
Among-keep p a (x ∷ xs) y (inl here) = let passes : p x ≡ true = rw here y in rw passes (inl here)
Among-keep p a (x ∷ xs) y (inr there) = elim (Bool-cases (p x)) [
  | inl yes_x ↦ rw yes_x (inr (Among-keep p a xs y there))
  | inr no_x ↦ rw no_x (Among-keep p a xs y there)
]

pub All-keep :
    {A : Type 0} (p : A → Bool) (P : A → Type 0) (xs : List A)
    → ((x : A) → Among x xs → p x ≡ true → P x)
    → All P (keep p xs)
All-keep p P [] h = tt
All-keep p P (x ∷ xs) h =
    let rest = All-keep p P xs (λ a among. h a (inr among)) in
    elim (Bool-cases (p x)) [ inl y ↦ rw y (h x (inl refl) y, rest) | inr n ↦ rw n rest ]
