-- ===== src/Rest/Cache/Laws.antt =====
-- The cache between the clients and the handlers, over a sequence of requests.
use gno_land_block_indexer.Prelude.{
  ◌==◌, ◌≡◌, refl, sym, ◌∙◌, ◌⊎◌, inl, inr, Bool, true, false, not, ◌&&◌, String, Option, none,
  some, List, [], ◌∷◌, if◌then◌else◌, str_eq, arith, Bool-cases,
}
use gno_land_block_indexer.Ent.Database.{Database}
use gno_land_block_indexer.Rest.Handlers.{Body}
use gno_land_block_indexer.Rest.Cache.{
  Store, Remembers, Request, memcache_key, Reply, handle, store, serve_get, serve,
}

module _ (D : Database) (C : Store) (remembers : Remembers C) (param_any : String → Option String)
    (render : Body → String) where
  -- The requests that came before, each with the database's state at that time.
  abbrev History : Type 0
  History = List (Request × D.State)

  -- A handler gave this reply to an earlier request of this key.
  abbrev pub Answered : String → Reply → History → Type 0
  Answered key reply [] = ⊥
  Answered key reply ((r, s) ∷ h) =
      ((memcache_key r ≡ key) × (handle D C param_any render r s ≡ reply)) ⊎ Answered key reply h

  abbrev found : String → Reply
  found value = record { status = 200; bytes = value }

  -- What the cache holds was answered before, with status 200.
  abbrev pub IsSound : History → C.State → Type 0
  IsSound h c = (key value : String) → C.get key c ≡ some value → Answered key (found value) h

  stored-IsSound :
      (h : History) (r : Request) (s : D.State) (c : C.State) (reply : Reply)
      → IsSound h c
      → handle D C param_any render r s ≡ reply
      → IsSound ((r, s) ∷ h) (store D C param_any render (memcache_key r) reply c)
  stored-IsSound h r s c reply sound e key value got =
      elim (Bool-cases (reply.status == 200 && not (str_eq reply.bytes ""))) [
        | inr n ↦ inr (sound key value (rw n at got))
        | inl y ↦ elim (remembers (memcache_key r) key reply.bytes value 60 c (rw y at got)) [
          | inl (k, v) ↦ inl (sym k, e ∙ ground arith)
          | inr before ↦ inr (sound key value before)
        ]
      ]

  -- The reply is what the handler gives now, or what it gave to an earlier request of the same path
  -- and query.
  abbrev pub IsFaithful : History → Request → D.State → Reply → Type 0
  IsFaithful h r s reply =
      (reply ≡ handle D C param_any render r s) ⊎ Answered (memcache_key r) reply h

  got-IsSound :
      (h : History) (r : Request) (s : D.State) (c : C.State) (o : Option String)
      → IsSound h c
      → C.get (memcache_key r) c ≡ o
      → let out = serve_get D C param_any render r o s c in
        IsFaithful h r s out.0 × IsSound ((r, s) ∷ h) out.1
  got-IsSound h r s c (some value) sound e =
      (inr (sound (memcache_key r) value e), λ key v got. inr (sound key v got))
  got-IsSound h r s c none sound e =
      (inl refl, stored-IsSound h r s c (handle D C param_any render r s) sound refl)

  served :
      (h : History) (r : Request) (s : D.State) (c : C.State) (is_get : Bool)
      → IsSound h c
      → let out =
          if is_get
          then serve_get D C param_any render r (C.get (memcache_key r) c) s c
          else (handle D C param_any render r s, c) in
        IsFaithful h r s out.0 × IsSound ((r, s) ∷ h) out.1
  served h r s c true sound = got-IsSound h r s c (C.get (memcache_key r) c) sound refl
  served h r s c false sound = (inl refl, λ key v got. inr (sound key v got))

  -- If the cache holds only what was set, and all of it was answered before: a request is answered by
  -- the handler, or with an answer of status 200 that the handler gave before to a request with the
  -- same cache key, which is the path, a question mark and the raw query as one text; and afterwards the cache again holds only such answers.
  pub serve-IsFaithful :
      (h : History) (r : Request) (s : D.State) (c : C.State)
      → IsSound h c
      → let out = serve D C param_any render r s c in
        IsFaithful h r s out.0 × IsSound ((r, s) ∷ h) out.1
  unfolding serve
  serve-IsFaithful h r s c sound = served h r s c (str_eq r.method "GET") sound
