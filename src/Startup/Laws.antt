-- ===== src/Startup/Laws.antt =====
-- How NewService of the block synchronizer ends, branch by branch.
use gno_land_block_indexer.Prelude.{
  ◌≡◌, ◌≢◌, ◌⊎◌, refl, Bool, true, false, String, Option, none, some, str_eq, eq_iff, arith, inl,
  inr, if◌then◌else◌,
}
use gno_land_block_indexer.Ent.Error.{Result, ok, err}
use gno_land_block_indexer.Broker.Lifecycle.{LocalStackConfig}
use gno_land_block_indexer.Startup.{
  RepositoryEntConfig, data_source, Started, up, crashed, exited, then_start, Platform, opened,
  new_repository_ent, repository_bs, new_repository_bs_ent, LocalStack, local_stack, or_exit,
  SynchronizerConfig, Synchronizer, new_synchronizer, websocket_or_default,
}

-- What holds of a program that is up, of one that has crashed and of one that has exited.
abbrev pub Ends : {A : Type 0} → Started A → (A → Type 0) → Type 0 → Type 0 → Type 0
Ends (up a) Q C X = Q a
Ends crashed Q C X = C
Ends exited Q C X = X

Ends-then :
    {A B : Type 0} (Q : A → Type 0) (R : B → Type 0) (C X : Type 0) (start : Started A)
    (f : A → Started B)
    → Ends start Q C X
    → ((a : A) → Q a → Ends (f a) R C X)
    → Ends (then_start start f) R C X
Ends-then Q R C X (up a) f h k = k a h
Ends-then Q R C X crashed f h k = h
Ends-then Q R C X exited f h k = h

default-ne :
    (b : Bool) (e : String)
    → str_eq e "" ≡ b
    → (if b then "wss://indexer.onbloc.xyz/graphql/query" else e) ≢ ""
default-ne true e empty h = ground (arith, (eq_iff "wss://indexer.onbloc.xyz/graphql/query" "").1 h)
default-ne false e named h = ground (arith, (eq_iff e "").1 h)

websocket-ne : (e : String) → websocket_or_default e ≢ ""
websocket-ne e = default-ne (str_eq e "") e refl

module _ (P : Platform) where
  -- The driver opened the client, and its schema could be created.
  abbrev Connected : RepositoryEntConfig → P.Client → Type 0
  Connected c client =
      (P.open_client "postgres" (data_source c) ≡ some client) × (P.create_schema client ≡ true)

  -- The client of a configuration that is there.
  abbrev ConnectedBy : Option RepositoryEntConfig → P.Client → Type 0
  ConnectedBy o client = (c : RepositoryEntConfig) × (o ≡ some c) × Connected c client

  -- There is no configuration, or the driver does not open its database.
  abbrev CannotOpen : Option RepositoryEntConfig → Type 0
  CannotOpen none = Unit
  CannotOpen (some c) = P.open_client "postgres" (data_source c) ≡ none

  -- The database was opened, and its schema could not be created.
  abbrev HasNoSchema : Option RepositoryEntConfig → Type 0
  HasNoSchema none = ⊥
  HasNoSchema (some c) =
      (client : P.Client) × (P.open_client "postgres" (data_source c) ≡ some client)
      × (P.create_schema client ≡ false)

  created-Ends :
      (c : RepositoryEntConfig) (client : P.Client) (b : Bool) (X : Type 0)
      → P.open_client "postgres" (data_source c) ≡ some client
      → P.create_schema client ≡ b
      → Ends
          (if b then up client else exited)
          (ConnectedBy (some c))
          (CannotOpen (some c))
          (HasNoSchema (some c) ⊎ X)
  created-Ends c client true X e h = (c, refl, (e, h))
  created-Ends c client false X e h = inl (client, e, h)

  opened-Ends :
      (c : RepositoryEntConfig) (o : Option P.Client) (X : Type 0)
      → P.open_client "postgres" (data_source c) ≡ o
      → Ends (opened P o) (ConnectedBy (some c)) (CannotOpen (some c)) (HasNoSchema (some c) ⊎ X)
  opened-Ends c none X e = e
  opened-Ends c (some client) X e = created-Ends c client (P.create_schema client) X e refl

  repo-Ends :
      (o : Option RepositoryEntConfig) (X : Type 0)
      → Ends (new_repository_ent P o) (ConnectedBy o) (CannotOpen o) (HasNoSchema o ⊎ X)
  unfolding new_repository_ent
  repo-Ends none X = tt
  repo-Ends (some c) X = opened-Ends c (P.open_client "postgres" (data_source c)) X refl

  repo_bs-Ends :
      (o : Option RepositoryEntConfig) (X : Type 0)
      → Ends (repository_bs P o) (ConnectedBy o) (CannotOpen o) (HasNoSchema o ⊎ X)
  unfolding new_repository_bs_ent
  repo_bs-Ends none X = tt
  repo_bs-Ends (some c) X = opened-Ends c (P.open_client "postgres" (data_source c)) X refl

  module _ (Handler : Type 0) where
    local_stack-Ends :
        (c : Option LocalStackConfig) (C Y : Type 0) (start : Started (LocalStack P Handler c))
        → local_stack P Handler c ≡ start
        → start ≢ crashed
        → Ends start (λ _. Unit) C (Y ⊎ (local_stack P Handler c ≡ exited))
    local_stack-Ends c C Y (up b) e n = tt
    local_stack-Ends c C Y crashed e n = absurd (n refl)
    local_stack-Ends c C Y exited e n = inr e

    exit_ne : {A : Type 0} (r : Result A) → or_exit P Handler r ≢ crashed
    exit_ne (ok a) e = ground (arith, e)
    exit_ne (err x) e = ground (arith, e)

    local_stack-ne : (c : Option LocalStackConfig) → local_stack P Handler c ≢ crashed
    unfolding local_stack
    local_stack-ne c = exit_ne _

    abbrev Serves : (config : SynchronizerConfig P Handler) → Synchronizer P Handler config → Type 0
    Serves config s =
        ConnectedBy config.ent_config s.repo
        × ConnectedBy config.ent_config s.repo_bs
        × (s.websocket_endpoint ≢ "")
        × (s.client ≡ config.fetch_endpoint)

    abbrev pub Served :
        (config : SynchronizerConfig P Handler) → Started (Synchronizer P Handler config) → Type 0
    Served config start =
        Ends start (Serves config) (CannotOpen config.ent_config) (
          HasNoSchema config.ent_config
          ⊎ (local_stack P Handler config.local_stack_config ≡ exited))

    -- NewService of the block synchronizer panics only if the configured database cannot be opened,
    -- and exits only if its schema cannot be created or the broker does not connect. Otherwise it
    -- returns: both its repositories are open on that database and its schema was created, the
    -- endpoint of its subscription is not empty, and the endpoint that it polls is the configured
    -- one, even if that is empty.
    pub new_synchronizer-Served :
        (config : SynchronizerConfig P Handler) → Served config (new_synchronizer P Handler config)
    unfolding new_synchronizer
    new_synchronizer-Served config =
        let X = local_stack P Handler config.local_stack_config ≡ exited in
        let C = CannotOpen config.ent_config in
        let E = HasNoSchema config.ent_config ⊎ X in
        Ends-then (ConnectedBy config.ent_config) (Serves config) C E
          (new_repository_ent P config.ent_config) _ (repo-Ends config.ent_config X)
          (λ repo at_repo.
            Ends-then (ConnectedBy config.ent_config) (Serves config) C E
              (repository_bs P config.ent_config) _ (repo_bs-Ends config.ent_config X)
              (λ repo_bs at_repo_bs.
                Ends-then (λ _. Unit) (Serves config) C E
                  (local_stack P Handler config.local_stack_config) _
                  (local_stack-Ends config.local_stack_config C (HasNoSchema config.ent_config)
                    (local_stack P Handler config.local_stack_config) refl
                    (local_stack-ne config.local_stack_config))
                  (λ broker _.
                    (at_repo, at_repo_bs, websocket-ne config.web_socket_endpoint, refl))))
