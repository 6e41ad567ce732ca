-- ===== src/Broker/Dict.antt =====
-- A Go `map[string]V`: reading a key, and assigning one.
use gno_land_block_indexer.Prelude.{
  ◌≡◌, refl, String, Option, none, some, List, [], ◌∷◌, if◌then◌else◌, str_eq, eq_refl, eq_iff, All,
  arith, Bool-cases, inl, inr,
}

-- The entries in the order in which their names were first assigned.
abbrev pub Dict {ℓ} : Type ℓ → Type ℓ
Dict V = List (String × V)

module _ {ℓ} {V : Type ℓ} where
  -- `v, ok := dict[name]`
  unfoldable pub value_at : Dict V → String → Option V
  value_at [] name = none
  value_at (entry ∷ rest) name = if str_eq entry.0 name then some entry.1 else value_at rest name

  -- `dict[name] = v`: the entry of the name is replaced, or a new one comes last.
  unfoldable pub assign : Dict V → String → V → Dict V
  assign [] name v = (name, v) ∷ []
  assign (entry ∷ rest) name v =
      (if str_eq entry.0 name then (name, v) else entry)
      ∷ (if str_eq entry.0 name then rest else assign rest name v)

  -- An assigned name is found with its value.
  pub value_at-assign :
      (dict : Dict V) (name : String) (v : V) → value_at (assign dict name v) name ≡ some v
  unfolding value_at assign
  value_at-assign [] name v = rw (eq_refl name) refl
  value_at-assign (entry ∷ rest) name v = elim (Bool-cases (str_eq entry.0 name)) [
    | inl here ↦ rw here (rw (eq_refl name) refl)
    | inr other ↦ rw other (rw other (value_at-assign rest name v))
  ]

-- Each name has the value that a function gives it.
abbrev pub Follows : (String → String) → Dict String → Type 0
Follows f d = All (λ entry. entry.1 ≡ f entry.0) d

pub Follows-assign :
    (f : String → String) (d : Dict String) (name : String)
    → Follows f d
    → Follows f (assign d name (f name))
unfolding assign
Follows-assign f [] name h = (refl, tt)
Follows-assign f (entry ∷ rest) name (q, h) = elim (Bool-cases (str_eq entry.0 name)) [
  | inl here ↦ rw here (refl, h)
  | inr other ↦ rw other (q, Follows-assign f rest name h)
]

pub Follows-value_at :
    (f : String → String) (d : Dict String) (name v : String)
    → Follows f d
    → value_at d name ≡ some v
    → v ≡ f name
unfolding value_at
Follows-value_at f [] name v h e = ground (arith, e)
Follows-value_at f (entry ∷ rest) name v (q, h) e = elim (Bool-cases (str_eq entry.0 name)) [
  | inl here ↦ ground (arith, q, (eq_iff entry.0 name).0 here, rw here at e)
  | inr other ↦ Follows-value_at f rest name v h (rw other at e)
]
