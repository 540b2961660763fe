-- ===== src/Api/Cache.antt =====
-- What the success of a mutation makes stale. The matching of keys is that of
-- @tanstack/react-query, a parameter: a key matches every key that begins with it.
use mathlib.Core.Path.{subst}
use text.Mathlib.TextEquality.{eq_iff}
use haul.Base.{
  ℕ, ◌≡◌, refl, sym, ap, ◌∙◌, Bool, true, false, List, [], ◌∷◌, ◌++◌, any, String, str_eq, arith,
}
use haul.Api.Types.{Key, part, Query, Mutation}
use haul.Api.Torrents
use haul.Api.Admin
use haul.Api.Admin.{Targets, CleanupMode, HistoryFilter}

pub record Matching : Type 0 where
  pub matches : Key → Key → Bool
  pub matches-append : (k rest : Key) → matches k (k ++ rest) ≡ true

-- Every hook that changes torrents on the server or their trackers. A reannouncement changes no record,
-- and its hook makes nothing stale. `remove_tracker` has `encodeURIComponent` with it.
pub data Change : Type 0 where
  add : Torrents.AddBody → Change
  remove : String → Bool → Change
  pause resume force_start recheck research : String → Change
  reorder : List String → Change
  set_priority : String → ℕ → Change
  set_category set_location : String → String → Change
  add_tags remove_tags : String → List String → Change
  cleanup : String → Targets → CleanupMode → Change
  restore : ℕ → Change
  add_trackers : String → List String → Change
  remove_tracker : (String → String) → String → String → Change

unfoldable pub change : Change → Mutation
change (add body) = Torrents.use_add_torrent body
change (remove hash with_data) = Torrents.use_delete_torrent hash with_data
change (pause hash) = Torrents.use_pause_torrent hash
change (resume hash) = Torrents.use_resume_torrent hash
change (force_start hash) = Torrents.use_force_start_torrent hash
change (recheck hash) = Torrents.use_recheck_torrent hash
change (research hash) = Torrents.use_research_torrent hash
change (reorder order) = Torrents.use_reorder_torrents order
change (set_priority hash n) = Torrents.use_set_torrent_priority hash n
change (set_category hash c) = Torrents.use_set_torrent_category hash c
change (set_location hash p) = Torrents.use_set_torrent_location hash p
change (add_tags hash tags) = Torrents.use_add_torrent_tags hash tags
change (remove_tags hash tags) = Torrents.use_remove_torrent_tags hash tags
change (cleanup name targets mode) = Admin.use_cleanup_diagnostic name targets mode
change (restore id) = Admin.use_restore_cleanup_history id
change (add_trackers hash urls) = Torrents.use_add_trackers hash urls
change (remove_tracker encode hash url) = Torrents.use_remove_tracker encode hash url

-- Every query on torrents.
pub data View : Type 0 where
  list : View
  one : String → Bool → View
  file_list peers pieces trackers stall : String → View

unfoldable pub view : View → Query
view list = Torrents.use_torrents
view (one hash detail) = Torrents.use_torrent hash detail
view (file_list hash) = Torrents.use_torrent_files hash
view (peers hash) = Torrents.use_torrent_peers hash
view (pieces hash) = Torrents.use_torrent_pieces hash
view (trackers hash) = Torrents.use_torrent_trackers hash
view (stall hash) = Torrents.use_torrent_stall hash

-- The views that show what a change changes: those on trackers change the trackers of one torrent, and
-- every other one may change all views.
abbrev pub is_trackers : String → View → Bool
is_trackers hash (trackers h) = str_eq hash h
is_trackers hash _ = false

abbrev pub touched : Change → View → Bool
touched (add_trackers hash urls) v = is_trackers hash v
touched (remove_tracker encode hash url) v = is_trackers hash v
touched _ v = true

module _ (qc : Matching) where
  unfoldable pub goes_stale : Mutation → Query → Bool
  goes_stale m q = any (λ k. qc.matches k q.key) m.stale

  pub view-matches : (v : View) → qc.matches (part "torrents" ∷ []) (view v).key ≡ true
  unfolding view Torrents.use_torrents Torrents.use_torrent Torrents.use_torrent_files
      Torrents.use_torrent_peers Torrents.use_torrent_pieces Torrents.use_torrent_trackers
      Torrents.use_torrent_stall
  view-matches list = qc.matches-append (part "torrents" ∷ []) []
  view-matches (one hash detail) = qc.matches-append (part "torrents" ∷ []) (part hash ∷ [])
  view-matches (file_list hash) =
      qc.matches-append (part "torrents" ∷ []) (part hash ∷ part "files" ∷ [])
  view-matches (peers hash) =
      qc.matches-append (part "torrents" ∷ []) (part hash ∷ part "peers" ∷ [])
  view-matches (pieces hash) =
      qc.matches-append (part "torrents" ∷ []) (part hash ∷ part "pieces" ∷ [])
  view-matches (trackers hash) =
      qc.matches-append (part "torrents" ∷ []) (part hash ∷ part "trackers" ∷ [])
  view-matches (stall hash) =
      qc.matches-append (part "torrents" ∷ []) (part hash ∷ part "stall" ∷ [])

  stale-first :
      (m : Mutation) (rest : List Key) (v : View)
      → m.stale ≡ (part "torrents" ∷ []) ∷ rest
      → goes_stale m (view v) ≡ true
  unfolding goes_stale
  stale-first m rest v e = let h = view-matches v in grind arith

  stale-third :
      (m : Mutation) (a b : Key) (v : View)
      → m.stale ≡ a ∷ b ∷ (part "torrents" ∷ []) ∷ []
      → goes_stale m (view v) ≡ true
  unfolding goes_stale
  stale-third m a b v e = let h = view-matches v in grind arith

  stale-trackers :
      (m : Mutation) (hash : String) (v : View)
      → m.stale ≡ (part "torrents" ∷ part hash ∷ part "trackers" ∷ []) ∷ []
      → is_trackers hash v ≡ true
      → goes_stale m (view v) ≡ true
  unfolding goes_stale view Torrents.use_torrent_trackers
  stale-trackers m hash (trackers h) e t =
      let same =
        ap (λ x. (part "torrents" ∷ part x ∷ part "trackers" ∷ []) ∷ []) ((eq_iff hash h).0 t) in
      let k = qc.matches-append (part "torrents" ∷ part h ∷ part "trackers" ∷ []) [] in
      subst
        (λ ks. any (λ l. qc.matches l (part "torrents" ∷ part h ∷ part "trackers" ∷ [])) ks ≡ true)
        (sym (e ∙ same)) (rw k refl)
  stale-trackers m hash _ e t = ground arith

  -- Every change of torrents or of their trackers, once the server has accepted it, makes every query
  -- stale that shows what it changes: adding and removing trackers that on the trackers of the torrent,
  -- every other change the list and, of each torrent, its detail, files, peers, pieces, trackers and
  -- stall.
  pub goes_stale-change :
      (c : Change) (v : View) → touched c v ≡ true → goes_stale (change c) (view v) ≡ true
  unfolding change Torrents.use_add_torrent Torrents.use_delete_torrent Torrents.use_pause_torrent
      Torrents.use_resume_torrent Torrents.use_force_start_torrent Torrents.use_recheck_torrent
      Torrents.use_research_torrent Torrents.use_reorder_torrents Torrents.use_set_torrent_priority
      Torrents.use_set_torrent_category Torrents.use_set_torrent_location
      Torrents.use_add_torrent_tags Torrents.use_remove_torrent_tags Admin.use_cleanup_diagnostic
      Admin.use_restore_cleanup_history Torrents.use_add_trackers Torrents.use_remove_tracker
  goes_stale-change (add body) v t = stale-first (change (add body)) _ v refl
  goes_stale-change (remove hash with_data) v t =
      stale-first (change (remove hash with_data)) _ v refl
  goes_stale-change (pause hash) v t = stale-first (change (pause hash)) _ v refl
  goes_stale-change (resume hash) v t = stale-first (change (resume hash)) _ v refl
  goes_stale-change (force_start hash) v t = stale-first (change (force_start hash)) _ v refl
  goes_stale-change (recheck hash) v t = stale-first (change (recheck hash)) _ v refl
  goes_stale-change (research hash) v t = stale-first (change (research hash)) _ v refl
  goes_stale-change (reorder order) v t = stale-first (change (reorder order)) _ v refl
  goes_stale-change (set_priority hash n) v t = stale-first (change (set_priority hash n)) _ v refl
  goes_stale-change (set_category hash c) v t = stale-first (change (set_category hash c)) _ v refl
  goes_stale-change (set_location hash p) v t = stale-first (change (set_location hash p)) _ v refl
  goes_stale-change (add_tags hash tags) v t = stale-first (change (add_tags hash tags)) _ v refl
  goes_stale-change (remove_tags hash tags) v t =
      stale-first (change (remove_tags hash tags)) _ v refl
  goes_stale-change (cleanup name targets mode) v t =
      stale-third (change (cleanup name targets mode)) _ _ v refl
  goes_stale-change (restore id) v t = stale-third (change (restore id)) _ _ v refl
  goes_stale-change (add_trackers hash urls) v t =
      stale-trackers (change (add_trackers hash urls)) hash v refl t
  goes_stale-change (remove_tracker encode hash url) v t =
      stale-trackers (change (remove_tracker encode hash url)) hash v refl t
