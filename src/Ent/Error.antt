-- ===== src/Ent/Error.antt =====
-- The error types of ent/ent.go, and the errors that `Errorf` makes of them.
use gno_land_block_indexer.Prelude.{Bool, true, false, String, List, [], ◌∷◌}

-- `cancelled` is `ctx.Err()`.
-- `network` is an error of the GraphQL client, the broker or the websocket.
-- `bad_number` is an error of `strconv.ParseInt`, `bad_message` one of `json.Unmarshal`.
-- `panicked` is a run-time panic, such as a read through a nil pointer; it ends the process.
-- `wrap m e` is `Errorf(m, e)`. It prints its cause with `%v`, so the cause's type is lost.
pub data Error : Type 0 where
  validation : String → Error
  not_found not_singular constraint driver panicked bad_number bad_message network cancelled : Error
  wrap : String → Error → Error

pub data Result {ℓ} (A : Type ℓ) : Type ℓ where
  ok : A → Result A
  err : Error → Result A

-- `ent.IsNotFound` and `ent.IsConstraintError`
abbrev pub is_not_found : Error → Bool
is_not_found not_found = true
is_not_found _ = false

abbrev pub is_constraint_error : Error → Bool
is_constraint_error constraint = true
is_constraint_error _ = false

-- The end of `Only`, which asked for at most two nodes.
abbrev pub only_node {ℓ} : {A : Type ℓ} → List A → Result A
only_node [] = err not_found
only_node (a ∷ []) = ok a
only_node (a ∷ b ∷ rest) = err not_singular

-- The end of `First`, which asked for at most one node.
abbrev pub first_node {ℓ} : {A : Type ℓ} → List A → Result A
first_node [] = err not_found
first_node (a ∷ rest) = ok a
