-- ===== src/Sync/Paths.antt =====
-- Views that share an entry of the cache ask for the same thing.
use text.Mathlib.TextLemmas.{append-nil, append_assoc}
use haul.Base.{◌≡◌, refl, sym, ap, ◌∙◌, String, ◌<>◌, [], ◌∷◌}
use haul.Api.Types.{Key, part}
use haul.Api.Torrents
use haul.Api.Cache.{View, view, list, one, file_list, peers, pieces, trackers, stall}

-- The path that a key of texts stands for.
path_of : Key → String
path_of [] = ""
path_of (part a ∷ k) = "/" <> (a <> path_of k)
path_of (_ ∷ k) = path_of k

under_torrents : (rest : String) → "/torrents/" <> rest ≡ "/" <> ("torrents" <> ("/" <> rest))
under_torrents rest = append_assoc "/torrents" "/" rest ∙ append_assoc "/" "torrents" ("/" <> rest)

view-path : (v : View) → (view v).path ≡ path_of (view v).key
unfolding path_of view Torrents.use_torrents Torrents.use_torrent Torrents.use_torrent_files
    Torrents.use_torrent_peers Torrents.use_torrent_pieces Torrents.use_torrent_trackers
    Torrents.use_torrent_stall
view-path list = refl
view-path (one hash detail) =
    ap (λ t. "/torrents/" <> t) (sym (append-nil hash)) ∙ under_torrents (hash <> "")
view-path (file_list hash) = under_torrents (hash <> "/files")
view-path (peers hash) = under_torrents (hash <> "/peers")
view-path (pieces hash) = under_torrents (hash <> "/pieces")
view-path (trackers hash) = under_torrents (hash <> "/trackers")
view-path (stall hash) = under_torrents (hash <> "/stall")

pub path-view : (v w : View) → (view v).key ≡ (view w).key → (view v).path ≡ (view w).path
path-view v w e = view-path v ∙ (ap path_of e ∙ sym (view-path w))
