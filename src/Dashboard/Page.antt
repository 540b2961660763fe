-- ===== src/Dashboard/Page.antt =====
-- The page of web/ui/src/pages/torrents/TorrentList.tsx: its state, what the user does to it, the chips
-- of the filter drawer and the texts about the list.
use haul.Base.{
  ℕ, Bool, true, false, not, ◌||◌, ltb, ◌==◌, Option, none, some, List, [], ◌∷◌, ◌++◌, length, keep,
  any, String, ◌<>◌, str_eq, truthy, truthy?, show_nat, ℤ, if◌then◌else◌,
}
use haul.Torrents.{TorrentInfo, VisualKey, visual_by_key}
use haul.Dashboard.{
  StatusFilter, active, downloading, seeding, completed, paused, stalled, failed, queued, SortField,
  manual, View, toggle_status, toggle_text, has_text, has_tag, same_filter, sort_by, ArrayMove,
  Drop, handle_drag_end,
}

pub record FilterPill : Type 0 where
  pub key : StatusFilter
  pub label : String
  pub color : String

-- `STATUS_FILTERS`
abbrev pub status_filters : List FilterPill
status_filters =
    record { key = active; label = "Active"; color = "var(--color-text-secondary)" }
    ∷ record {
      key = downloading;
      label = "Downloading";
      color = (visual_by_key VisualKey.downloading).color;
    }
    ∷ record { key = seeding; label = "Seeding"; color = (visual_by_key VisualKey.seeding).color }
    ∷ record {
      key = completed;
      label = "Completed";
      color = (visual_by_key VisualKey.completed).color;
    }
    ∷ record { key = paused; label = "Paused"; color = (visual_by_key VisualKey.paused).color }
    ∷ record { key = stalled; label = "Stalled"; color = (visual_by_key VisualKey.stalled).color }
    ∷ record { key = failed; label = "Failed"; color = (visual_by_key VisualKey.failed).color }
    ∷ record { key = queued; label = "Queued"; color = (visual_by_key VisualKey.queued).color }
    ∷ []

-- The filter that a query parameter names.
unfoldable pub filter_of : String → Option StatusFilter
filter_of s =
    if str_eq s "active"
    then some active
    else if str_eq s "downloading"
    then some downloading
    else if str_eq s "seeding"
    then some seeding
    else if str_eq s "completed"
    then some completed
    else if str_eq s "paused"
    then some paused
    else if str_eq s "stalled"
    then some stalled
    else if str_eq s "failed"
    then some failed
    else if str_eq s "queued"
    then some queued
    else none

unfoldable pub initial_filters : Option String → List StatusFilter
initial_filters none = active ∷ []
initial_filters (some s) = elim (filter_of s) [ none ↦ active ∷ [] | some f ↦ f ∷ [] ]

-- The query parameters after the effect of the first render.
unfoldable pub stripped : Option String → List (String × String) → List (String × String)
stripped initial params =
    if truthy? initial then keep (λ kv. not (str_eq kv.0 "status")) params else params

-- The dialogs that a row opens.
pub data Submodal : Type 0 where
  category tags location : Submodal

pub record PageState : Type 0 where
  pub view : View
  pub show_add : Bool
  pub show_filters : Bool
  -- the torrent and the point of the context menu
  pub menu : Option (TorrentInfo × ℕ × ℕ)
  pub submodal : Option (Submodal × TorrentInfo)

unfoldable pub first_page : Option String → PageState
unfolding initial_filters
first_page initial = record {
  view = record {
    status_filters = initial_filters initial;
    category_filters = [];
    tag_filters = [];
    sort_field = manual;
    search = "";
    local_order = none;
  };
  show_add = false;
  show_filters = false;
  menu = none;
  submodal = none;
}

pub data PageEvent : Type 0 where
  click_pill : StatusFilter → PageEvent
  click_category click_tag : String → PageEvent
  -- "Clear all filters" of the drawer, and "clear all filters" of the empty list
  clear_drawer clear_all : PageEvent
  pick_sort : SortField → PageEvent
  type_search : String → PageEvent
  toggle_drawer : PageEvent
  -- the listed hashes, the one that is dragged and the one under it
  drag_end : List String → String → Option String → PageEvent
  show_dialog close_dialog : PageEvent
  open_menu : TorrentInfo → ℕ → ℕ → PageEvent
  close_menu : PageEvent
  open_submodal : Submodal → TorrentInfo → PageEvent
  close_submodal : PageEvent

-- The view after a drop, if it is carried out.
unfoldable pub dropped : Option Drop → View → View
dropped none v = v
dropped (some d) v = record v { local_order = some d.local_order; sort_field = d.sort_field }

module _ (kit : ArrayMove) where
  unfoldable pub on_view : View → PageEvent → View
  unfolding dropped
  on_view v (click_pill key) = record v { status_filters = toggle_status key v.status_filters }
  on_view v (click_category cat) = record v {
    category_filters = toggle_text cat v.category_filters;
  }
  on_view v (click_tag tag) = record v { tag_filters = toggle_text tag v.tag_filters }
  on_view v clear_drawer = record v { category_filters = []; tag_filters = [] }
  on_view v clear_all = record v {
    status_filters = active ∷ [];
    category_filters = [];
    tag_filters = [];
    search = "";
  }
  on_view v (pick_sort field) = record v { sort_field = field; local_order = none }
  on_view v (type_search s) = record v { search = s }
  on_view v (drag_end hashes active_id over_id) =
      dropped (handle_drag_end kit hashes active_id over_id) v
  on_view v _ = v

  unfoldable pub on_page : PageState → PageEvent → PageState
  unfolding on_view
  on_page s toggle_drawer = record s { show_filters = not s.show_filters }
  on_page s show_dialog = record s { show_add = true }
  on_page s close_dialog = record s { show_add = false }
  on_page s (open_menu t x y) = record s { menu = some (t, x, y) }
  on_page s close_menu = record s { menu = none }
  on_page s (open_submodal kind t) = record s { submodal = some (kind, t) }
  on_page s close_submodal = record s { submodal = none }
  on_page s e = record s { view = on_view s.view e }

  unfoldable pub run_page : PageState → List PageEvent → PageState
  unfolding on_page
  run_page s [] = s
  run_page s (e ∷ es) = run_page (on_page s e) es

-- `Set.add` of a text.
unfoldable pub add_text : String → List String → List String
add_text s set = if has_text set s then set else set ++ (s ∷ [])

unfoldable pub add_texts : List String → List String → List String
unfolding add_text
add_texts [] set = set
add_texts (s ∷ ss) set = add_texts ss (add_text s set)

-- The categories of the torrents that have one, and their tags.
abbrev pub category_texts : TorrentInfo → List String
category_texts t = if truthy t.category then t.category ∷ [] else []

abbrev pub tag_texts : TorrentInfo → List String
tag_texts t = elim t.tags [ none ↦ [] | some ts ↦ ts ]

abbrev pub texts_of : (TorrentInfo → List String) → List TorrentInfo → List String
texts_of f [] = []
texts_of f (t ∷ ts) = f t ++ texts_of f ts

-- `[...set].sort()`: `compare` is the order of texts that `sort` takes without an argument.
module _ (compare : String → String → ℤ) where
  unfoldable pub categories : List TorrentInfo → List String
  unfolding add_texts
  categories torrents = sort_by compare (add_texts (texts_of category_texts torrents) [])

  unfoldable pub tag_list : List TorrentInfo → List String
  unfolding add_texts
  tag_list torrents = sort_by compare (add_texts (texts_of tag_texts torrents) [])

-- The number on a chip.
unfoldable pub category_count : List TorrentInfo → String → ℕ
category_count torrents cat = length (keep (λ (t : TorrentInfo). str_eq t.category cat) torrents)

unfoldable pub tag_count : List TorrentInfo → String → ℕ
tag_count torrents tag = length (keep (λ (t : TorrentInfo). has_tag (tag ∷ []) t.tags) torrents)

-- Whether "of n" stands behind the number of the listed torrents.
unfoldable pub has_filters : View → Bool
has_filters v =
    not (any (same_filter active) v.status_filters)
    || ltb 1 (length v.status_filters)
    || ltb 0 (length v.category_filters)
    || ltb 0 (length v.tag_filters)
    || truthy v.search

unfoldable pub result_count : View → ℕ → ℕ → String
unfolding has_filters
result_count v listed total =
    show_nat listed
    <> (if has_filters v then " of " <> show_nat total else "")
    <> " torrent"
    <> (if listed == 1 then "" else "s")

-- What stands in place of the list.
pub data Placeholder : Type 0 where
  skeleton no_matching no_torrents : Placeholder

unfoldable pub placeholder : Bool → ℕ → ℕ → Option Placeholder
placeholder true listed total = some skeleton
placeholder false listed total =
    if listed == 0 then (if ltb 0 total then some no_matching else some no_torrents) else none
