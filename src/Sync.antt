-- ===== src/Sync.antt =====
-- How the parts keep what is shown up to date: the hooks of web/ui/src/api/torrents.ts, the mutations
-- of api/*.ts and the messages of api/websocket.ts around the query cache of @tanstack/react-query,
-- which is a parameter. What the server does to its state is free; what it answers depends on its
-- state and the path.
use haul.Base.{
  All, false, ◌&&◌, ◌≡◌, Bool, true, false, some, not, List, [], ◌∷◌, ◌++◌, ◌||◌, ◌⊎◌, any, keep,
  String,
}
use haul.Api.Types.{Key}
use haul.Api.Cache.{Matching, Change, change, touched, View, view}
use haul.Connection.{idle, on_message}
mod Paths
mod Laws
mod Tests

-- The cache, as far as the views of torrents are concerned: invalidation marks the views whose keys
-- match, and keeps their data until they are fetched; a reply is stored under its key. `cancels` tells
-- whether an invalidation cancels the request of a view that is under way, as @tanstack/react-query
-- does where the query is observed and has data.
pub record QueryCache : Type 1 where
  pub matching : Matching
  pub Cache : Type 0
  pub is_stale : View → Cache → Bool
  pub data_of : View → Cache → String
  pub cancels : View → Cache → Bool
  pub invalidate : List Key → Cache → Cache
  pub store : View → String → Cache → Cache
  pub is_stale-invalidate :
      (v : View) (keys : List Key) (c : Cache)
      → is_stale v (invalidate keys c)
        ≡ (any (λ k. matching.matches k (view v).key) keys || is_stale v c)
  pub data_of-invalidate :
      (v : View) (keys : List Key) (c : Cache) → data_of v (invalidate keys c) ≡ data_of v c
  pub stored : (v : View) (reply : String) (c : Cache) → is_stale v (store v reply c) ≡ false
  pub shared :
      (v w : View) (reply : String) (c : Cache)
      → (view v).key ≡ (view w).key
      → data_of w (store v reply c) ≡ reply
  pub kept :
      (v w : View) (reply : String) (c : Cache)
      → ((view v).key ≡ (view w).key)
        ⊎ ((is_stale w (store v reply c) ≡ is_stale w c)
            × (data_of w (store v reply c) ≡ data_of w c))

module _ {Server : Type 0} (qc : QueryCache) (answer : Server → String → String)
    (starts_with : String → String → Bool) where
  -- The server, the cache, the replies that the server has given and that are still under way, and
  -- the keys that replies to mutations and messages under way will invalidate.
  pub record World : Type 0 where
    pub server : Server
    pub cache : qc.Cache
    pub replies : List (View × String)
    pub inbox : List (List Key)

  -- The server changes to the given state as it accepts a mutation on torrents.
  unfoldable pub accept : Change → Server → World → World
  accept c next w = record w { server = next; inbox = w.inbox ++ ((change c).stale ∷ []) }

  -- What the `onmessage` of the socket invalidates for a message of a type.
  unfoldable pub announced_keys : String → List Key
  announced_keys kind = (on_message starts_with (some (some kind)) idle).invalidated

  -- The server sends a message.
  unfoldable pub announce : String → World → World
  announce kind w = record w { inbox = w.inbox ++ (announced_keys kind ∷ []) }

  unfoldable pub is_hit : List Key → View → Bool
  is_hit keys v = any (λ k. qc.matching.matches k (view v).key) keys

  -- `invalidateQueries` for each key.
  unfoldable pub deliver : List Key → World → World
  deliver keys w = record w {
    cache = qc.invalidate keys w.cache;
    replies = keep (λ r. not (is_hit keys r.0 && qc.cancels r.0 w.cache)) w.replies;
  }

  -- The `queryFn` of a view: the server answers by its state.
  unfoldable pub ask : View → World → World
  ask v w = record w { replies = (v, answer w.server (view v).path) ∷ w.replies }

  unfoldable pub receive : View × String → World → World
  receive r w = record w { cache = qc.store r.0 r.1 w.cache }

  -- A run from an empty cache. The server changes when it accepts a mutation, or by itself, which it
  -- announces by a message on a torrent; a change of trackers leaves the answers on all else as they
  -- are. Messages and replies arrive in any order; a reply may be lost. When an invalidation arrives, the
  -- requests under way that it matches are such that it cancels them.
  pub data Run : World → Type 0 where
    first :
        (w : World)
        → ((v : View) → qc.is_stale v w.cache ≡ true)
        → w.replies ≡ []
        → w.inbox ≡ []
        → Run w
    accepted :
        (w : World) (c : Change) (next : Server)
        → Run w
        → ((v : View)
            → touched c v ≡ false
            → answer next (view v).path ≡ answer w.server (view v).path)
        → Run (accept c next w)
    changed :
        (w : World) (kind : String) (next : Server)
        → Run w
        → starts_with kind "torrent_" ≡ true
        → Run (announce kind (record w { server = next }))
    told : (w : World) (kind : String) → Run w → Run (announce kind w)
    delivered :
        (w : World) (earlier later : List (List Key)) (keys : List Key)
        → Run w
        → w.inbox ≡ earlier ++ (keys ∷ later)
        → All (λ r. is_hit keys r.0 ≡ true → qc.cancels r.0 w.cache ≡ true) w.replies
        → Run (deliver keys (record w { inbox = earlier ++ later }))
    asked : (w : World) (v : View) → Run w → Run (ask v w)
    received :
        (w : World) (earlier later : List (View × String)) (r : View × String)
        → Run w
        → w.replies ≡ earlier ++ (r ∷ later)
        → Run (receive r (record w { replies = earlier ++ later }))
    lost :
        (w : World) (earlier later : List (View × String)) (r : View × String)
        → Run w
        → w.replies ≡ earlier ++ (r ∷ later)
        → Run (record w { replies = earlier ++ later })
