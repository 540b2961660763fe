-- ===== src/Torrents.antt =====
-- web/ui/src/api/torrents.ts (the data) and web/ui/src/lib/torrentStatus.ts (what a row shows).
-- Fractions such as `progress` are numbers in a fixed unit, since the code only compares them here.
use haul.Base.{ℕ, Bool, ◌&&◌, Option, List, if◌then◌else◌, String, str_eq, truthy?}

pub record TorrentInfo : Type 0 where
  pub info_hash : String
  pub name : String
  pub status : String
  pub save_path : String
  pub category : String
  pub tags : Option (List String)
  pub size : ℕ
  pub downloaded : ℕ
  pub uploaded : ℕ
  pub progress : ℕ
  pub download_rate : ℕ
  pub upload_rate : ℕ
  pub seeds : ℕ
  pub peers : ℕ
  pub seed_ratio : ℕ
  pub eta : ℕ
  pub added_at : String
  pub completed_at : Option String
  pub content_path : String
  pub stalled : Bool
  pub stalled_at : Option String
  pub requester : Option String

pub data VisualKey : Type 0 where
  downloading stalled seeding completed paused queued failed : VisualKey

pub record TorrentVisual : Type 0 where
  pub key : VisualKey
  pub label : String
  pub color : String

-- `VISUALS`
unfoldable pub visuals : VisualKey → TorrentVisual
visuals downloading = record {
  key = downloading;
  label = "Downloading";
  color = "var(--color-status-downloading)";
}
visuals stalled = record { key = stalled; label = "Stalled"; color = "var(--color-status-stalled)" }
visuals seeding = record { key = seeding; label = "Seeding"; color = "var(--color-status-seeding)" }
visuals completed = record {
  key = completed;
  label = "Completed";
  color = "var(--color-status-completed)";
}
visuals paused = record { key = paused; label = "Paused"; color = "var(--color-status-paused)" }
visuals queued = record { key = queued; label = "Queued"; color = "var(--color-status-queued)" }
visuals failed = record { key = failed; label = "Failed"; color = "var(--color-status-failed)" }

-- The switch on the status; an unknown one falls back to "downloading".
unfoldable pub status_key : String → VisualKey
status_key status =
    if str_eq status "downloading"
    then downloading
    else if str_eq status "seeding"
    then seeding
    else if str_eq status "completed"
    then completed
    else if str_eq status "paused"
    then paused
    else if str_eq status "queued"
    then queued
    else if str_eq status "failed"
    then failed
    else downloading

unfoldable pub torrent_visual : TorrentInfo → TorrentVisual
unfolding visuals status_key
torrent_visual t =
    if truthy? t.stalled_at
    then visuals stalled
    else if str_eq t.status "downloading" && t.stalled
    then visuals stalled
    else visuals (status_key t.status)

unfoldable pub visual_by_key : VisualKey → TorrentVisual
unfolding visuals
visual_by_key key = visuals key
