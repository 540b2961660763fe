-- ===== src/History/Rows.antt =====
-- The table of web/ui/src/pages/activity/ActivityPage.tsx: its columns and tabs, what stands in its
-- body, its rows and the line below it; ActivityItem is of web/ui/src/api/activity.ts.
use haul.Base.{
  ℕ, ◌+◌, min, Bool, true, false, not, ◌&&◌, ltb, leb, ◌==◌, Option, none, some, List, [], ◌∷◌,
  String, ◌<>◌, truthy, truthy?, str_eq, first_chars, if◌then◌else◌,
}
use haul.Api.Activity.{
  ActivitySort, added_at, completed_at, size_bytes, resolution, name, ActivityStatus, all, active,
  completed, removed, Order, sort_name,
}
use haul.Formats.{Logarithm, format_bytes, time_ago}
use haul.History.{ActivityPage, page_size, page_number, total_pages}

pub record ActivityItem : Type 0 where
  pub info_hash : String
  pub name : String
  pub category : String
  pub save_path : String
  pub size_bytes : ℕ
  pub resolution : String
  pub added_at : String
  pub completed_at : Option String
  pub removed_at : Option String
  pub requester : Option String
  pub movie_id : Option String
  pub series_id : Option String
  pub episode_id : Option String
  pub tmdb_id : Option ℕ
  pub season : Option ℕ
  pub episode : Option ℕ

abbrev pub status_tabs : List (ActivityStatus × String)
status_tabs =
    (all, "All") ∷ (active, "Active") ∷ (completed, "Completed") ∷ (removed, "Removed") ∷ []

pub record SortableColumn : Type 0 where
  pub key : ActivitySort
  pub label : String
  pub is_right : Bool
  pub width : Option ℕ

abbrev pub columns : List SortableColumn
columns =
    record { key = name; label = "Name"; is_right = false; width = none }
    ∷ record { key = size_bytes; label = "Size"; is_right = true; width = some 90 }
    ∷ record { key = resolution; label = "Quality"; is_right = false; width = some 80 }
    ∷ record { key = added_at; label = "Added"; is_right = false; width = some 100 }
    ∷ record { key = completed_at; label = "Status"; is_right = false; width = some 110 }
    ∷ []

-- The arrow beside a header.
unfoldable pub header_arrow : ActivityPage → ActivitySort → Option Order
header_arrow p col = if str_eq (sort_name p.sort) (sort_name col) then some p.order else none

pub data RowStatus : Type 0 where
  row_removed row_completed row_downloading : RowStatus

unfoldable pub status_of : ActivityItem → RowStatus
status_of it =
    if truthy? it.removed_at
    then row_removed
    else if truthy? it.completed_at
    then row_completed
    else row_downloading

pub record Pill : Type 0 where
  pub color : String
  pub bg : String
  pub label : String

unfoldable pub status_pill : RowStatus → Pill
status_pill row_removed = record {
  color = "var(--color-text-muted)";
  bg = "var(--color-bg-elevated)";
  label = "Removed";
}
status_pill row_completed = record {
  color = "var(--color-success)";
  bg = "color-mix(in srgb, var(--color-success) 12%, transparent)";
  label = "Completed";
}
status_pill row_downloading = record {
  color = "var(--color-accent)";
  bg = "color-mix(in srgb, var(--color-accent) 12%, transparent)";
  label = "Downloading";
}

unfoldable pub resolution_color : String → String
resolution_color value =
    if str_eq value "2160p"
    then "var(--color-accent)"
    else if str_eq value "1080p"
    then "var(--color-success)"
    else if str_eq value "720p"
    then "var(--color-text-secondary)"
    else "var(--color-text-muted)"

pub record RowView : Type 0 where
  pub target : String
  pub title : String
  pub category : Option String
  pub size : String
  -- The text of the badge and its color.
  pub badge : Option (String × String)
  pub added : String
  pub pill : Pill

-- What the platform does: the formats' parameters, `toUpperCase`, `new Date(s).getTime()`, `Date.now()`.
pub record Locale : Type 0 where
  pub logarithm : Logarithm
  pub upper : String → String
  pub get_time : String → Option ℕ
  pub now : ℕ

unfoldable pub row_view : Locale → ActivityItem → RowView
row_view js item = record {
  target = "/activity/" <> item.info_hash;
  title = if truthy item.name then item.name else first_chars 12 item.info_hash;
  category = if truthy item.category then some item.category else none;
  size = if ltb 0 item.size_bytes then format_bytes js.logarithm item.size_bytes else "—";
  badge =
      if truthy item.resolution
      then some (js.upper item.resolution, resolution_color item.resolution)
      else none;
  added = time_ago js.get_time js.now item.added_at;
  pill = status_pill (status_of item);
}

-- The rows of the table's body before the items.
pub data Notice : Type 0 where
  loading failed no_matches no_activity : Notice

abbrev pub notice_text : Notice → String
notice_text loading = "Loading…"
notice_text failed = "Failed to load activity."
notice_text no_matches = "No matches"
notice_text no_activity = "No activity yet"

abbrev pub is_empty {ℓ} : {A : Type ℓ} → List A → Bool
is_empty [] = true
is_empty (x ∷ xs) = false

unfoldable pub notices : Bool → Bool → ActivityPage → List ActivityItem → List Notice
notices is_loading error p items =
    if is_loading && is_empty items
    then (if error then loading ∷ failed ∷ [] else loading ∷ [])
    else if error
    then failed ∷ []
    else if not is_loading && is_empty items
    then (if truthy p.search then no_matches ∷ [] else no_activity ∷ [])
    else []

-- `Showing {offset + 1}–{Math.min(offset + items.length, total)}`
unfoldable pub shown_range : ℕ → ℕ → ℕ → ℕ × ℕ
shown_range offset items total = (offset + 1, min (offset + items) total)

pub record Pagination : Type 0 where
  pub range : ℕ × ℕ
  pub previous_disabled : Bool
  pub next_disabled : Bool
  pub page : ℕ
  pub pages : ℕ

unfoldable pub pagination : ℕ → ℕ → ActivityPage → Option Pagination
unfolding shown_range
pagination items total p =
    if ltb page_size total
    then some (record {
      range = shown_range p.offset items total;
      previous_disabled = p.offset == 0;
      next_disabled = leb total (p.offset + page_size);
      page = page_number p;
      pages = total_pages total;
    })
    else none
