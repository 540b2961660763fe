-- ===== src/Dashboard/Cards.antt =====
-- The cards of web/ui/src/pages/torrents/TorrentList.tsx: the row of one torrent (`TorrentCard`), and
-- the cards of the whole list at the top of the page.
use haul.Base.{
  ℕ, ◌-◌, Bool, false, ◌||◌, ◌&&◌, ltb, leb, Option, none, some, List, [], ◌∷◌, ◌++◌, length, keep,
  sum_by, String, ◌<>◌, str_eq, show_nat, if◌then◌else◌,
}
use haul.Torrents.{TorrentInfo}
use haul.Api.Types.{Mutation}
use haul.Api.Torrents.{use_pause_torrent, use_resume_torrent, use_delete_torrent}
use haul.Confirm.{ConfirmOptions}
use haul.Formats.{Logarithm, format_bytes, format_speed, format_eta, format_time_active}

-- What the texts depend on: `toFixed` of a ratio and of a percentage, and times.
pub record CardLocale : Type 0 where
  pub logarithm : Logarithm
  pub ratio : ℕ → String
  pub percent : ℕ → String
  pub get_time : String → Option ℕ
  pub now : ℕ

pub record StatCell : Type 0 where
  pub label : String
  pub value : String
  pub color : Option String

abbrev cell : String → String → StatCell
cell label value = record { label = label; value = value; color = none }

abbrev colored : String → String → String → StatCell
colored label value color = record { label = label; value = value; color = some color }

abbrev pub is_downloading : TorrentInfo → Bool
is_downloading t = str_eq t.status "downloading"

abbrev pub is_seeding : TorrentInfo → Bool
is_seeding t = str_eq t.status "seeding" || str_eq t.status "completed"

-- What is left to download: below 0 it counts as 0, as `formatBytes` shows it.
abbrev pub amount_left : TorrentInfo → ℕ
amount_left t = t.size - t.downloaded

unfoldable pub stat_cells : CardLocale → TorrentInfo → List StatCell
stat_cells js t =
    let bytes = format_bytes js.logarithm in
    let speed = format_speed js.logarithm in
    (cell "Size" (bytes t.size) ∷ [])
    ++ ((if is_downloading t
          then colored "↓ Speed" (speed t.download_rate)
              (if ltb 0 t.download_rate then "var(--color-accent)" else "var(--color-text-muted)")
            ∷ cell "ETA" (if ltb 0 t.download_rate then format_eta t.eta else "∞")
            ∷ cell "Left" (bytes (amount_left t))
            ∷ []
          else [])
        ++ ((if is_downloading t || is_seeding t
              then colored "↑ Speed" (speed t.upload_rate) "var(--color-success)" ∷ []
              else [])
            ++ (record {
              label = "Seeds";
              value = show_nat t.seeds;
              color =
                  if leb t.seeds 1 && is_downloading t then some "var(--color-warning)" else none;
            }
                ∷ cell "Peers" (show_nat t.peers)
                ∷ cell "Ratio" (if ltb 0 t.seed_ratio then js.ratio t.seed_ratio else "0.00")
                ∷ cell "Uploaded" (bytes t.uploaded)
                ∷ cell "Active" (format_time_active js.get_time js.now t.added_at)
                ∷ [])))

-- The button of the row, and what it sends.
unfoldable pub row_button : TorrentInfo → String × Mutation
row_button t =
    if str_eq t.status "paused"
    then ("Resume", use_resume_torrent t.info_hash)
    else ("Pause", use_pause_torrent t.info_hash)

abbrev pub remove_options : TorrentInfo → ConfirmOptions
remove_options t = record {
  title = "Remove torrent";
  message = "Remove \"" <> t.name <> "\" from Haul? Files on disk are kept.";
  confirm_label = some "Remove";
  danger = none;
}

-- `handleRemove`, for the answer of the dialog.
unfoldable pub handle_remove : TorrentInfo → Bool → Option Mutation
handle_remove t ok = if ok then some (use_delete_torrent t.info_hash false) else none

-- The opacity of a row, in hundredths.
unfoldable pub opacity : Bool → TorrentInfo → ℕ
opacity is_dragging t = if is_dragging then 50 else if str_eq t.status "queued" then 55 else 100

pub record Summary : Type 0 where
  pub total_down : ℕ
  pub total_up : ℕ
  pub downloading : ℕ
  pub seeding : ℕ
  pub paused : ℕ
  pub total_size : ℕ

unfoldable pub summary : List TorrentInfo → Summary
summary torrents = record {
  total_down = sum_by (λ (t : TorrentInfo). t.download_rate) torrents;
  total_up = sum_by (λ (t : TorrentInfo). t.upload_rate) torrents;
  downloading = length (keep is_downloading torrents);
  seeding = length (keep is_seeding torrents);
  paused = length (keep (λ (t : TorrentInfo). str_eq t.status "paused") torrents);
  total_size = sum_by (λ (t : TorrentInfo). t.size) torrents;
}

unfoldable pub global_stats : Logarithm → List TorrentInfo → List (String × String)
unfolding summary
global_stats js torrents =
    let s = summary torrents in
    ("Download", format_speed js s.total_down)
    ∷ ("Upload", format_speed js s.total_up)
    ∷ ("Active", show_nat s.downloading)
    ∷ ("Seeding", show_nat s.seeding)
    ∷ ("Paused", show_nat s.paused)
    ∷ ("Total Size", format_bytes js s.total_size)
    ∷ []
