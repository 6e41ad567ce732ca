-- ===== src/Rest/Cache.antt =====
-- The two middlewares of `Run` around the handlers, and the local cache behind them.
pub mod Laws
use Prim.Native.String.{◌++◌ as ◌+++◌}
use gno_land_block_indexer.Prelude.{
  ℕ, ◌==◌, ◌≡◌, Bool, true, false, not, ◌&&◌, ◌⊎◌, String, Option, none, some, if◌then◌else◌,
  str_eq,
}
use gno_land_block_indexer.Ent.Database.{Database}
use gno_land_block_indexer.Rest.Handlers.{Body, empty, text, Response, Query, handle_token_routes}

-- The cache of `freecache`: an entry may go at any time, by age or by eviction.
pub record Store : Type 1 where
  pub State : Type 0
  pub get : String → State → Option String
  pub set : String → String → ℕ → State → Bool × State

-- What is found after a `Set` was just stored under that key, or was there before.
abbrev pub Remembers : Store → Type 0
Remembers C =
    (key j data_text found : String) (seconds : ℕ) (c : C.State)
    → C.get j (C.set key data_text seconds c).1 ≡ some found
    → ((j ≡ key) × (found ≡ data_text)) ⊎ (C.get j c ≡ some found)

pub record Request : Type 0 where
  pub method : String
  pub path : String
  pub raw_query : String
  pub query : Query

-- `getMemcacheKey`
abbrev pub memcache_key : Request → String
memcache_key r = r.path +++ "?" +++ r.raw_query

-- The bytes that go out.
pub record Reply : Type 0 where
  pub status : ℕ
  pub bytes : String

-- `param_any` is the router's: the part of a path that `*any` matches, if the path has the route
-- `/tokens/*any`; its redirects of other paths are left out. `render` writes a body; only a body that was never written is empty.
module _ (D : Database) (C : Store) (param_any : String → Option String)
    (render : Body → String) where
  abbrev render_response : Response → Reply
  render_response r = record { status = r.status; bytes = render r.body }

  abbrev pub page_not_found : Response
  page_not_found = record { status = 404; body = text "404 page not found" }

  abbrev routed : Request → Option String → D.State → Response
  routed r none s = page_not_found
  routed r (some any) s =
      if str_eq r.method "GET" then handle_token_routes D r.query any s else page_not_found

  -- What the handlers answer, with no cache in between.
  unfoldable pub handle : Request → D.State → Reply
  handle r s = render_response (routed r (param_any r.path) s)

  -- The second middleware: it stores an answer of status 200 that is not empty, for 60 seconds.
  abbrev store : String → Reply → C.State → C.State
  store key reply c =
      if reply.status == 200 && not (str_eq reply.bytes "")
      then (C.set key reply.bytes 60 c).1
      else c

  abbrev serve_missed : Request → D.State → C.State → Reply × C.State
  serve_missed r s c = let reply = handle r s in (reply, store (memcache_key r) reply c)

  abbrev serve_get : Request → Option String → D.State → C.State → Reply × C.State
  serve_get r (some value) s c = (record { status = 200; bytes = value }, c)
  serve_get r none s c = serve_missed r s c

  -- A request that is no GET passes by the cache.
  unfoldable pub serve : Request → D.State → C.State → Reply × C.State
  serve r s c =
      if str_eq r.method "GET" then serve_get r (C.get (memcache_key r) c) s c else (handle r s, c)
