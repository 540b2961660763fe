-- ===== src/Settings/Fields.antt =====
-- web/ui/src/pages/settings/SettingsPage.tsx: the cards of the settings page with their controls.
-- `advanced` rows stand behind a button in their card.
use haul.Base.{
  ℕ, ◌*◌, Bool, true, false, not, Option, none, some, List, [], ◌∷◌, ◌++◌, if◌then◌else◌, String,
  ltb, ◌==◌, ◌<>◌,
}
use haul.Settings.{SettingsMap, get_bool, get_num, get_str}

-- A control with its label, the key that it edits, and its fallback.
pub data Control : Type 0 where
  toggle : String → String → Bool → Control
  -- least value, and greatest value where there is one
  number_field : String → String → ℕ → ℕ → Option ℕ → Control
  text_field : String → String → String → Control
  choice : String → String → String → List String → Control

pub record Card : Type 0 where
  pub title : String
  pub rows : List Control
  pub advanced : List Control

abbrev pub downloads_card : Card
downloads_card = record {
  title = "Downloads";
  rows = text_field "Default Save Path" "download_dir" "/home/Downloads" ∷ [];
  advanced = [];
}

abbrev schedule_rows : List Control
schedule_rows =
    number_field "From (hour)" "schedule_from_hour" 8 0 (some 23)
    ∷ number_field "To (hour)" "schedule_to_hour" 20 0 (some 23)
    ∷ choice "Days" "schedule_days" "all" ("all" ∷ "weekday" ∷ "weekend" ∷ [])
    ∷ []

unfoldable pub speed_card : SettingsMap → Card
speed_card form = record {
  title = "Speed";
  rows =
      number_field "Global Download Limit (KB/s)" "global_download_limit" 0 0 none
      ∷ number_field "Global Upload Limit (KB/s)" "global_upload_limit" 0 0 none
      ∷ [];
  advanced =
      number_field "Alt Download Limit (KB/s)" "alt_download_limit" 0 0 none
      ∷ number_field "Alt Upload Limit (KB/s)" "alt_upload_limit" 0 0 none
      ∷ toggle "Alt speed schedule" "schedule_enabled" false
      ∷ (if get_bool "schedule_enabled" false form then schedule_rows else []);
}

abbrev pub bittorrent_card : Card
bittorrent_card = record {
  title = "BitTorrent";
  rows = choice "Encryption" "encryption" "prefer" ("prefer" ∷ "require" ∷ "disable" ∷ []) ∷ [];
  advanced =
      toggle "DHT" "enable_dht" true
      ∷ toggle "PEX" "enable_pex" true
      ∷ toggle "uTP" "enable_utp" true
      ∷ toggle "LSD" "enable_lsd" true
      ∷ [];
}

abbrev limit_rows : List Control
limit_rows =
    number_field "Default Seed Ratio" "default_seed_ratio" 0 0 none
    ∷ choice "Action on limit reached" "seed_limit_action" "pause"
        ("pause" ∷ "remove" ∷ "remove_with_data" ∷ [])
    ∷ []

unfoldable pub seeding_card : SettingsMap → Card
seeding_card form = record {
  title = "Seeding";
  rows =
      toggle "Stop seeding when complete" "pause_on_complete" false
      ∷ (if not (get_bool "pause_on_complete" false form) then limit_rows else []);
  advanced = number_field "Default Seed Time (minutes)" "default_seed_time" 0 0 none ∷ [];
}

abbrev pub connection_card : Card
connection_card = record {
  title = "Connection";
  rows = number_field "Listen Port" "listen_port" 6881 0 (some 65535) ∷ [];
  advanced =
      number_field "Max Global Connections" "max_connections" 500 0 none
      ∷ number_field "Max Per-Torrent Connections" "max_connections_per_torrent" 100 0 none
      ∷ [];
}

abbrev pub queue_card : Card
queue_card = record {
  title = "Queue";
  rows = number_field "Max Active Downloads" "max_active_downloads" 5 0 none ∷ [];
  advanced = number_field "Stall Timeout (seconds)" "stall_timeout" 120 30 none ∷ [];
}

abbrev pub hooks_card : Card
hooks_card = record {
  title = "External Commands";
  rows = [];
  advanced =
      text_field "Run on torrent added" "on_add_command" ""
      ∷ text_field "Run on torrent completed" "on_complete_command" ""
      ∷ [];
}

unfoldable pub cards : SettingsMap → List Card
unfolding speed_card seeding_card
cards form =
    downloads_card
    ∷ speed_card form
    ∷ bittorrent_card
    ∷ seeding_card form
    ∷ connection_card
    ∷ queue_card
    ∷ hooks_card
    ∷ []

-- The state of a card: whether its advanced rows are shown.
unfoldable pub card_rows : Bool → Card → List Control
card_rows show_advanced card = if show_advanced then card.rows ++ card.advanced else card.rows

-- What a control shows of the form.
pub data Shown : Type 0 where
  switch : Bool → Shown
  amount : ℕ → Shown
  words : String → Shown

module _ (number : String → Option ℕ) where
  unfoldable pub shown : SettingsMap → Control → Shown
  unfolding get_bool get_num get_str
  shown form (toggle label key fallback) = switch (get_bool key fallback form)
  shown form (number_field label key fallback least greatest) =
      amount (get_num number key fallback form)
  shown form (text_field label key fallback) = words (get_str key fallback form)
  shown form (choice label key fallback options) = words (get_str key fallback form)

abbrev pub control_key : Control → String
control_key (toggle label key fallback) = key
control_key (number_field label key fallback least greatest) = key
control_key (text_field label key fallback) = key
control_key (choice label key fallback options) = key

-- `toFixed` of a quotient, to the given number of digits.
module _ (to_fixed : ℕ → ℕ → ℕ → String) where
  unfoldable pub format_disk_bytes : ℕ → String
  format_disk_bytes b =
      if b == 0
      then "0 B"
      else if ltb b (1024 * 1024 * 1024)
      then to_fixed b (1024 * 1024 * 1024) 1 <> " GB"
      else to_fixed b (1024 * 1024 * 1024 * 1024) 2 <> " TB"
