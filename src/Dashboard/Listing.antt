-- ===== src/Dashboard/Listing.antt =====
-- What web/ui/src/pages/torrents/TorrentList.tsx shows: the pills, the controls, the filter drawer, the
-- list with its queue line, and the dialogs.
use haul.Base.{
  ℕ, suc, ◌+◌, Bool, true, false, not, ◌&&◌, ◌||◌, ltb, ◌==◌, Option, none, some, List, [], ◌∷◌,
  ◌++◌, ◌<>◌, length, map, any, String, ℤ, if◌then◌else◌,
}
use haul.Torrents.{TorrentInfo, TorrentVisual, torrent_visual}
use haul.Dashboard.{
  StatusFilter, active, SortField, manual, added, name, size, progress, speed, View, has_text,
  same_filter, count_for_status, is_manual, show_cap_line,
}
use haul.Dashboard.Page.{
  FilterPill, status_filters, PageState, Submodal, category, tags, location, categories, tag_list,
  category_count, tag_count,
}
use haul.Dashboard.Cards.{CardLocale, StatCell, stat_cells, row_button}

abbrev tint : String → String → String
tint color share = "color-mix(in srgb, " <> color <> " " <> share <> ", transparent)"

-- `{health && ...}`: the mark beside the title.
pub record VpnBadge : Type 0 where
  pub background : String
  pub color : String
  pub label : String

unfoldable pub vpn_badge : Option Bool → Option VpnBadge
vpn_badge none = none
vpn_badge (some true) = some record {
  background = tint "var(--color-success)" "15%";
  color = "var(--color-success)";
  label = "VPN";
}
vpn_badge (some false) = some record {
  background = tint "var(--color-danger)" "15%";
  color = "var(--color-danger)";
  label = "No VPN";
}

-- A pill; the opacity is in hundredths.
pub record PillView : Type 0 where
  pub key : StatusFilter
  pub label : String
  pub count : ℕ
  pub border : String
  pub background : String
  pub color : String
  pub weight : ℕ
  pub dot : String
  pub opacity : ℕ

abbrev or_none : Option (List TorrentInfo) → List TorrentInfo
or_none none = []
or_none (some ts) = ts

unfoldable pub pill_view : Option (List TorrentInfo) → View → FilterPill → PillView
pill_view torrents v pill =
    let count = count_for_status (or_none torrents) pill.key in
    let chosen = any (same_filter pill.key) v.status_filters in
    record {
      key = pill.key;
      label = pill.label;
      count = count;
      border =
          if chosen then "1px solid " <> pill.color else "1px solid var(--color-border-default)";
      background = if chosen then tint pill.color "12%" else "transparent";
      color = if chosen then pill.color else "var(--color-text-muted)";
      weight = if chosen then 600 else 400;
      dot = if chosen then pill.color else "var(--color-text-muted)";
      opacity = if count == 0 && not (same_filter pill.key active) then 50 else 100;
    }

unfoldable pub pills : Option (List TorrentInfo) → View → List PillView
pills torrents v = map (pill_view torrents v) status_filters

-- The options of the sort menu.
abbrev pub sort_options : List (SortField × String)
sort_options =
    (manual, "Sort: Manual")
    ∷ (added, "Sort: Added")
    ∷ (name, "Sort: Name")
    ∷ (size, "Sort: Size")
    ∷ (progress, "Sort: Progress")
    ∷ (speed, "Sort: Speed")
    ∷ []

-- The button of the filter drawer, and the number on it.
pub record DrawerButton : Type 0 where
  pub arrow : String
  pub accented : Bool
  pub weight : ℕ
  pub badge : Option ℕ

abbrev chip_filters : View → Bool
chip_filters v = ltb 0 (length v.category_filters) || ltb 0 (length v.tag_filters)

unfoldable pub drawer_button : PageState → DrawerButton
drawer_button s = record {
  arrow = if s.show_filters then "▲" else "▼";
  accented = s.show_filters || chip_filters s.view;
  weight = if chip_filters s.view then 600 else 400;
  badge =
      if chip_filters s.view
      then some (length s.view.category_filters + length s.view.tag_filters)
      else none;
}

-- A chip: its text, its number, and whether it is chosen.
pub record Chip : Type 0 where
  pub label : String
  pub count : ℕ
  pub chosen : Bool

pub record Drawer : Type 0 where
  pub category_chips : List Chip
  pub tag_chips : List Chip
  pub is_empty : Bool
  pub has_clear : Bool

unfoldable pub category_chip : List TorrentInfo → View → String → Chip
category_chip torrents v cat = record {
  label = cat;
  count = category_count torrents cat;
  chosen = has_text v.category_filters cat;
}

unfoldable pub tag_chip : List TorrentInfo → View → String → Chip
tag_chip torrents v tag = record {
  label = tag;
  count = tag_count torrents tag;
  chosen = has_text v.tag_filters tag;
}

unfoldable pub drawer :
    (String → String → ℤ) → Option (List TorrentInfo) → PageState → Option Drawer
unfolding category_chip tag_chip
drawer compare torrents s =
    let ts = or_none torrents in
    let cats = categories compare ts in
    let tag_texts = tag_list compare ts in
    if s.show_filters
    then some record {
      category_chips = map (category_chip ts s.view) cats;
      tag_chips = map (tag_chip ts s.view) tag_texts;
      is_empty = length cats == 0 && length tag_texts == 0;
      has_clear = chip_filters s.view;
    }
    else none

-- A row of the list: the limit on the line above it, if there is one.
pub record Item : Type 0 where
  pub cap_line : Option ℕ
  pub torrent : TorrentInfo
  pub draggable : Bool

unfoldable pub item : SortField → ℕ → ℕ → ℕ → TorrentInfo → Item
item field max_active count i t = record {
  cap_line = if show_cap_line field max_active i count then some max_active else none;
  torrent = t;
  draggable = is_manual field;
}

unfoldable pub items_from : SortField → ℕ → ℕ → ℕ → List TorrentInfo → List Item
unfolding item
items_from field max_active count i [] = []
items_from field max_active count i (t ∷ ts) =
    item field max_active count i t ∷ items_from field max_active count (suc i) ts

unfoldable pub items : SortField → ℕ → List TorrentInfo → List Item
unfolding items_from
items field max_active listed = items_from field max_active (length listed) 0 listed

-- The row of a torrent.
pub record Card : Type 0 where
  pub name : String
  pub visual : TorrentVisual
  pub background : String
  pub button : String
  pub cells : List StatCell
  pub progress : String

unfoldable pub card : CardLocale → TorrentInfo → Card
card js t =
    let visual = torrent_visual t in
    record {
      name = t.name;
      visual = visual;
      background = tint visual.color "15%";
      button = (row_button t).0;
      cells = stat_cells js t;
      progress = js.percent t.progress <> "%";
    }

-- The dialogs that are open.
pub data Dialog : Type 0 where
  add_dialog context_menu category_dialog tags_dialog location_dialog : Dialog

abbrev submodal_dialog : Submodal → Dialog
submodal_dialog category = category_dialog
submodal_dialog tags = tags_dialog
submodal_dialog location = location_dialog

unfoldable pub dialogs : PageState → List Dialog
dialogs s =
    (if s.show_add then add_dialog ∷ [] else [])
    ++ (elim s.menu [ none ↦ [] | some m ↦ context_menu ∷ [] ]
        ++ elim s.submodal [ none ↦ [] | some m ↦ submodal_dialog m.0 ∷ [] ])
