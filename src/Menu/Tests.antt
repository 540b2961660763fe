-- ===== src/Menu/Tests.antt =====
-- A menu that is opened in the corner of a small window.
use haul.Base.{none, some, false, ◌+◌, ◌≤◌, ◌≡◌, refl, arith}
use haul.Menu.{Spot, reposition}
use haul.Torrents.{TorrentInfo}
use haul.Menu.Laws.{reposition_bounds}

abbrev click : Spot
click = record { x = 790; y = 100 }

abbrev menu_size : Spot
menu_size = record { x = 220; y = 400 }

abbrev window_size : Spot
window_size = record { x = 800; y = 600 }

reposition-run : reposition click menu_size window_size ≡ record { x = 572; y = 92 }
unfolding reposition
reposition-run = refl

reposition_bounds_example :
    (8 ≤ (reposition click menu_size window_size).x)
    × ((reposition click menu_size window_size).x + 220 ≤ 800)
    × (8 ≤ (reposition click menu_size window_size).y)
    × ((reposition click menu_size window_size).y + 400 ≤ 600)
reposition_bounds_example =
    reposition_bounds click menu_size window_size (omega arith) (omega arith)

-- A torrent of Pilot that was paused because it stalled.
abbrev dead : TorrentInfo
dead = record {
  info_hash = "cc";
  name = "dead";
  status = "paused";
  save_path = "/downloads";
  category = "tv";
  tags = none;
  size = 900;
  downloaded = 300;
  uploaded = 0;
  progress = 333;
  download_rate = 0;
  upload_rate = 0;
  seeds = 0;
  peers = 0;
  seed_ratio = 0;
  eta = 0;
  added_at = "2026-01-01";
  completed_at = none;
  content_path = "/downloads/dead";
  stalled = false;
  stalled_at = some "2026-01-02";
  requester = some "pilot";
}
