-- ===== src/Sync/Tests.antt =====
-- A cache of the views, and a server that counts its changes.
use text.Mathlib.TextEquality.{eq_iff}
use text.Mathlib.TextPositions.{eq_refl}
use mathlib.Core.Bool.{false≢true}
use haul.Base.{
  not, All, ℕ, ◌≡◌, refl, sym, ap, ◌∙◌, Bool, true, false, String, ◌<>◌, str_eq, show_nat,
  first_chars, [], ◌∷◌, ◌++◌, ◌⊎◌, inl, inr, any, ◌||◌, ◌&&◌, Bool-cases, if◌then◌else◌, arith,
}
use haul.Api.Types.{Key, part, count, fields}
use haul.Api.Torrents
use haul.Api.Cache.{
  change, Matching, View, view, list, one, file_list, peers, pieces, trackers, stall, pause,
}
use haul.Sync.{
  QueryCache, World, Run, first, accepted, delivered, asked, received, deliver, ask, receive,
  accept,
}
use haul.Sync.Laws.{Run-UpToDate}

-- Matching on the first part alone, which is all that the keys of views need.
abbrev first_part : Key → String
first_part (part a ∷ k) = a
first_part _ = ""

abbrev same_topic : Key → Key → Bool
same_topic [] k = true
same_topic (p ∷ ps) k = str_eq (first_part (p ∷ ps)) (first_part k)

same_topic-append : (k rest : Key) → same_topic k (k ++ rest) ≡ true
same_topic-append [] rest = refl
same_topic-append (part a ∷ ps) rest = eq_refl a
same_topic-append (count n ∷ ps) rest = refl
same_topic-append (fields f ∷ ps) rest = refl

abbrev topics : Matching
topics = record { matches = same_topic; matches-append = same_topic-append }

-- Equality of keys of texts.
abbrev same_key : Key → Key → Bool
same_key [] [] = true
same_key (part a ∷ k) (part b ∷ l) = let rest = same_key k l in str_eq a b && rest
same_key _ _ = false

and_left : (a b : Bool) → (a && b) ≡ true → a ≡ true
and_left a b h = ground arith

and_right : (a b : Bool) → (a && b) ≡ true → b ≡ true
and_right a b h = ground arith

same_key-eq : (k l : Key) → same_key k l ≡ true → k ≡ l
same_key-eq [] [] h = refl
same_key-eq [] (b ∷ l) h = ground arith
same_key-eq (part a ∷ k) [] h = ground arith
same_key-eq (part a ∷ k) (part b ∷ l) h =
    let e = (eq_iff a b).0 (and_left (str_eq a b) (same_key k l) h) in
    let ih = same_key-eq k l (and_right (str_eq a b) (same_key k l) h) in
    ap (λ t. part t ∷ k) e ∙ ap (λ rest. part b ∷ rest) ih
same_key-eq (part a ∷ k) (count b ∷ l) h = ground arith
same_key-eq (part a ∷ k) (fields b ∷ l) h = ground arith
same_key-eq (count a ∷ k) l h = ground arith
same_key-eq (fields a ∷ k) l h = ground arith

same_key-view : (v : View) → same_key (view v).key (view v).key ≡ true
unfolding view Torrents.use_torrents Torrents.use_torrent Torrents.use_torrent_files
    Torrents.use_torrent_peers Torrents.use_torrent_pieces Torrents.use_torrent_trackers
    Torrents.use_torrent_stall
same_key-view list = refl
same_key-view (one hash detail) = rw (eq_refl hash) refl
same_key-view (file_list hash) = rw (eq_refl hash) refl
same_key-view (peers hash) = rw (eq_refl hash) refl
same_key-view (pieces hash) = rw (eq_refl hash) refl
same_key-view (trackers hash) = rw (eq_refl hash) refl
same_key-view (stall hash) = rw (eq_refl hash) refl

abbrev Entries : Type 0
Entries = View → Bool × String

abbrev store_entry : View → String → Entries → Entries
store_entry v reply c w = if same_key (view v).key (view w).key then (false, reply) else c w

same_key-shared :
    (v w : View) → (view v).key ≡ (view w).key → same_key (view v).key (view w).key ≡ true
same_key-shared v w e = ap (same_key (view v).key) (sym e) ∙ same_key-view v

store_entry-kept :
    (v w : View) (reply : String) (c : Entries)
    → ((view v).key ≡ (view w).key)
      ⊎ (((store_entry v reply c w).0 ≡ (c w).0) × ((store_entry v reply c w).1 ≡ (c w).1))
store_entry-kept v w reply c = elim (Bool-cases (same_key (view v).key (view w).key)) [
  | inl e ↦ inl (same_key-eq _ _ e)
  | inr e ↦ inr (rw e refl, rw e refl)
]

abbrev entries : QueryCache
entries = record {
  matching = topics;
  Cache = Entries;
  is_stale = λ v c. (c v).0;
  data_of = λ v c. (c v).1;
  cancels = λ v c. not (str_eq (c v).1 "");
  invalidate = λ keys c v. (any (λ k. same_topic k (view v).key) keys || (c v).0, (c v).1);
  store = store_entry;
  is_stale-invalidate = λ v keys c. refl;
  data_of-invalidate = λ v keys c. refl;
  stored = λ v reply c. rw (same_key-view v) refl;
  shared = λ v w reply c e. rw (same_key-shared v w e) refl;
  kept = store_entry-kept;
}

-- Every path is answered by the number of changes so far.
abbrev count_changes : ℕ → String → String
count_changes n path = path <> show_nat n

abbrev starts_with : String → String → Bool
starts_with kind prefix = str_eq (first_chars 8 kind) prefix

abbrev before : World entries count_changes starts_with
before = record { server = 0; cache = λ v. (true, ""); replies = []; inbox = [] }

abbrev loaded : World entries count_changes starts_with
loaded = record before { cache = store_entry list "/torrents0" before.cache }

-- The list is fetched again, and while that reply is under way a torrent is paused.
abbrev paused : World entries count_changes starts_with
paused = record loaded {
  server = 1;
  replies = (list, "/torrents0") ∷ [];
  inbox = ((part "torrents" ∷ []) ∷ []) ∷ [];
}

paused-Run : Run entries count_changes starts_with paused
unfolding accept ask receive view change Torrents.use_torrents Torrents.use_pause_torrent show_nat
paused-Run =
    let asked_once = asked before list (first before (λ v. refl) refl refl) in
    let shown = received _ [] [] (list, "/torrents0") asked_once refl in
    accepted _ (pause "aa") 1 (asked loaded list shown) (λ v e. absurd (false≢true (sym e)))

-- Then the reply to the pause arrives, and the request for the list is cancelled.
abbrev settled : World entries count_changes starts_with
settled =
    deliver entries count_changes starts_with ((part "torrents" ∷ []) ∷ [])
      (record paused { inbox = [] })

settled-Run : Run entries count_changes starts_with settled
unfolding deliver view Torrents.use_torrents
settled-Run = delivered paused [] [] ((part "torrents" ∷ []) ∷ []) paused-Run refl (λ e. refl, tt)

Run-UpToDate_example :
    let shown = receive entries count_changes starts_with (list, "/torrents1") settled in
    ((entries.is_stale list settled.cache ≡ true)
      ⊎ (entries.data_of list settled.cache ≡ "/torrents1"))
    × All (λ r. r.1 ≡ count_changes 1 (view r.0).path) settled.replies
    × (ask entries count_changes starts_with list settled).replies
      ≡ (list, "/torrents1") ∷ settled.replies
    × (entries.is_stale list shown.cache ≡ false)
    × (entries.data_of list shown.cache ≡ "/torrents1")
unfolding deliver view Torrents.use_torrents show_nat
Run-UpToDate_example = Run-UpToDate entries count_changes starts_with settled list settled-Run refl
