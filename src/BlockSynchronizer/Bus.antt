-- ===== src/BlockSynchronizer/Bus.antt =====
-- The message broker as its clients use it: the interface `MsgBroker` of
-- externals/msgbroker/msgbroker.go, for publishing.
use gno_land_block_indexer.Prelude.{◌≡◌, Bool, true, false, String, List, [], ◌∷◌, ◌++◌}

pub record Bus : Type 1 where
  pub State : Type 0
  pub sent : State → List (String × String)
  pub publish : String → String → State → Bool × State

abbrev pub Published : (B : Bus) → String → String → B.State → Bool × B.State → Type 0
Published B topic m s (true, s') = B.sent s' ≡ B.sent s ++ (topic, m) ∷ []
Published B topic m s (false, s') = B.sent s' ≡ B.sent s

-- A message that is accepted is sent once; one that is refused is not sent.
abbrev pub Delivers : Bus → Type 0
Delivers B = (topic m : String) (s : B.State) → Published B topic m s (B.publish topic m s)
