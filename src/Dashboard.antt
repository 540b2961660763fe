-- ===== src/Dashboard.antt =====
-- web/ui/src/pages/torrents/TorrentList.tsx: the dashboard's filters, order and drag and drop.
-- What the browser's library decides (letter case, collation, the parsing of dates) is a parameter.
pub mod Sorting
pub mod Filters
pub mod Drag
mod Kit
mod Listing
mod Lines
mod Cards
pub mod Page
mod PageLaws
mod Chips
mod Submodals
mod Tests
use haul.Base.{
  ℕ, zero, suc, ◌+◌, ◌-◌, ◌≡◌, ◌≤◌, ◌<◌, Bool, true, false, ◌&&◌, ◌||◌, not, Option, none, some,
  List, [], ◌∷◌, ◌++◌, map, ltb, leb, ◌==◌, if◌then◌else◌, any, keep, length, get_elem?, sum_by, ℤ,
  pos, negsuc, sub_ℕ, leb_ℤ, String, str_eq, truthy, truthy?,
}
use mathlib.Core.List.{Perm}
use haul.Torrents.{TorrentInfo}

pub data StatusFilter : Type 0 where
  active downloading seeding completed paused stalled failed queued : StatusFilter

pub data SortField : Type 0 where
  manual name added size progress speed : SortField

-- Equality of two filter keys, as `Set.has` and `delete` test it.
abbrev pub filter_code : StatusFilter → ℕ
filter_code active = 0
filter_code downloading = 1
filter_code seeding = 2
filter_code completed = 3
filter_code paused = 4
filter_code stalled = 5
filter_code failed = 6
filter_code queued = 7

abbrev pub same_filter : StatusFilter → StatusFilter → Bool
same_filter a b = filter_code a == filter_code b

unfoldable pub is_finished : TorrentInfo → Bool
is_finished t = str_eq t.status "completed" || str_eq t.status "seeding"

unfoldable pub matches_status : TorrentInfo → StatusFilter → Bool
unfolding is_finished
matches_status t active = not (is_finished t) && not (truthy? t.stalled_at)
matches_status t downloading = str_eq t.status "downloading" && not (truthy? t.stalled_at)
matches_status t seeding = str_eq t.status "seeding"
matches_status t completed = is_finished t
matches_status t paused = str_eq t.status "paused" && not (truthy? t.stalled_at)
matches_status t stalled = truthy? t.stalled_at || (str_eq t.status "downloading" && t.stalled)
matches_status t failed = str_eq t.status "failed"
matches_status t queued = str_eq t.status "queued"

unfoldable pub count_for_status : List TorrentInfo → StatusFilter → ℕ
count_for_status torrents filter = length (keep (λ t. matches_status t filter) torrents)

-- A sort by a comparison function, stable as in ECMAScript: insertion from the right.
module _ {ℓ} {A : Type ℓ} where
  unfoldable pub insert_by : (A → A → ℤ) → A → List A → List A
  insert_by cmp x [] = x ∷ []
  insert_by cmp x (y ∷ ys) =
      let rest = insert_by cmp x ys in if leb_ℤ (cmp x y) (pos 0) then x ∷ y ∷ ys else y ∷ rest

  unfoldable pub sort_by : (A → A → ℤ) → List A → List A
  unfolding insert_by
  sort_by cmp [] = []
  sort_by cmp (x ∷ xs) = insert_by cmp x (sort_by cmp xs)

-- What the JavaScript library decides. `get_time` is `new Date(s).getTime()`, `none` for NaN.
pub record Platform : Type 0 where
  pub lower : String → String
  pub includes : String → String → Bool
  pub locale_compare : String → String → ℤ
  pub get_time : String → Option ℕ

-- `b - a` of two times; a NaN counts as 0 in a sort.
abbrev pub time_difference : Option ℕ → Option ℕ → ℤ
time_difference none b = pos 0
time_difference (some a) none = pos 0
time_difference (some a) (some b) = sub_ℕ a b

module _ (js : Platform) where
  unfoldable pub compare_torrents : SortField → TorrentInfo → TorrentInfo → ℤ
  compare_torrents name a b = js.locale_compare a.name b.name
  compare_torrents added a b = time_difference (js.get_time b.added_at) (js.get_time a.added_at)
  compare_torrents size a b = sub_ℕ b.size a.size
  compare_torrents progress a b = sub_ℕ b.progress a.progress
  compare_torrents speed a b =
      sub_ℕ (b.download_rate + b.upload_rate) (a.download_rate + a.upload_rate)
  compare_torrents manual a b = pos 0

  unfoldable pub sort_torrents : List TorrentInfo → SortField → List TorrentInfo
  sort_torrents torrents manual = torrents
  sort_torrents torrents field = sort_by (compare_torrents field) torrents

-- The state of the page that decides what is listed.
pub record View : Type 0 where
  pub status_filters : List StatusFilter
  pub category_filters : List String
  pub tag_filters : List String
  pub sort_field : SortField
  pub search : String
  pub local_order : Option (List String)

abbrev pub has_text : List String → String → Bool
has_text xs s = any (λ x. str_eq x s) xs

-- `t.tags?.some(...)`
abbrev pub has_tag : List String → Option (List String) → Bool
has_tag wanted none = false
has_tag wanted (some tags) = any (λ tag. has_text wanted tag) tags

-- `new Map(localOrder.map((h, i) => [h, i])).get(h)`: a later index replaces an earlier one.
unfoldable pub order_index : ℕ → List String → String → Option ℕ
order_index i [] h = none
order_index i (k ∷ ks) h = elim (order_index (i + 1) ks h) [
  | some j ↦ some j
  | none ↦ if str_eq k h then some i else none
]

abbrev pub order_key : List String → TorrentInfo → ℕ
order_key order t = elim (order_index 0 order t.info_hash) [ some i ↦ i | none ↦ 9999 ]

-- `sorted.sort((a, b) => ai - bi)` on the optimistic order of a drag.
unfoldable pub apply_order : List String → List TorrentInfo → List TorrentInfo
apply_order order torrents = sort_by (λ a b. sub_ℕ (order_key order a) (order_key order b)) torrents

abbrev pub is_manual : SortField → Bool
is_manual manual = true
is_manual _ = false

module _ (js : Platform) where
  -- The filters of `filtered`, one after the other.
  unfoldable pub passing : View → List TorrentInfo → List TorrentInfo
  passing v torrents =
      let by_status = keep (λ t. any (matches_status t) v.status_filters) torrents in
      let by_category =
        if ltb 0 (length v.category_filters)
        then keep (λ (t : TorrentInfo). has_text v.category_filters t.category) by_status
        else by_status in
      let by_tag =
        if ltb 0 (length v.tag_filters)
        then keep (λ (t : TorrentInfo). has_tag v.tag_filters t.tags) by_category
        else by_category in
      if truthy v.search
      then keep (λ (t : TorrentInfo). js.includes (js.lower t.name) (js.lower v.search)) by_tag
      else by_tag

  -- The order of a drag on top of the sort; it counts in the manual order only.
  unfoldable pub arranged : SortField → Option (List String) → List TorrentInfo → List TorrentInfo
  arranged field none sorted = sorted
  arranged field (some order) sorted = if is_manual field then apply_order order sorted else sorted

  unfoldable pub filtered : View → List TorrentInfo → List TorrentInfo
  unfolding passing arranged
  filtered v torrents =
      arranged v.sort_field v.local_order (sort_torrents js (passing v torrents) v.sort_field)

-- A click on a filter pill.
abbrev pub remove_filter : StatusFilter → List StatusFilter → List StatusFilter
remove_filter key filters = keep (λ f. not (same_filter f key)) filters

unfoldable pub toggle_specific : StatusFilter → List StatusFilter → List StatusFilter
toggle_specific key prev =
    let next = remove_filter active prev in
    let toggled =
      if any (same_filter key) next then remove_filter key next else next ++ (key ∷ []) in
    if length toggled == 0 then active ∷ [] else toggled

unfoldable pub toggle_status : StatusFilter → List StatusFilter → List StatusFilter
unfolding toggle_specific
toggle_status key prev = if same_filter key active then active ∷ [] else toggle_specific key prev

-- A click on a category or tag.
unfoldable pub toggle_text : String → List String → List String
toggle_text key prev =
    if has_text prev key then keep (λ s. not (str_eq s key)) prev else prev ++ (key ∷ [])

-- `Number(raw)` of a numeral, or NaN: a parameter. The setting is 0 if absent, empty or no number.
unfoldable pub max_active_downloads : (String → Option ℕ) → Option String → ℕ
max_active_downloads number none = 0
max_active_downloads number (some raw) =
    if truthy raw then elim (number raw) [ none ↦ 0 | some n ↦ n ] else 0

-- Whether the queue line stands above row `i`.
unfoldable pub show_cap_line : SortField → ℕ → ℕ → ℕ → Bool
show_cap_line field max_active i count =
    is_manual field && ltb 0 max_active && i == max_active && ltb i count

-- `indexOf`, `none` for -1.
unfoldable pub index_of : List String → String → Option ℕ
index_of [] h = none
index_of (k ∷ ks) h =
    let rest = index_of ks h in
    if str_eq k h then some 0 else elim rest [ none ↦ none | some i ↦ some (i + 1) ]

-- `arrayMove` of @dnd-kit/sortable: it moves one item and keeps the others.
pub record ArrayMove : Type 0 where
  pub move : List String → ℕ → ℕ → List String
  pub move-perm :
      (xs : List String) (i j : ℕ) → i < length xs → j < length xs → Perm (move xs i j) xs
  pub get_elem?-move :
      (xs : List String) (i j : ℕ)
      → i < length xs
      → j < length xs
      → get_elem? (move xs i j) j ≡ get_elem? xs i

-- What a drop sends and sets.
pub record Drop : Type 0 where
  pub local_order : List String
  pub sort_field : SortField
  pub priority_hash : String
  pub priority : ℕ
  pub reorder : List String

module _ (kit : ArrayMove) where
  -- `handleDragEnd`, with the hashes of the listed torrents; `none` where it returns early.
  unfoldable pub handle_drag_end : List String → String → Option String → Option Drop
  handle_drag_end hashes active_id none = none
  handle_drag_end hashes active_id (some over_id) =
      if str_eq active_id over_id then none else elim (index_of hashes active_id) [
        | none ↦ none
        | some old_index ↦ elim (index_of hashes over_id) [
          | none ↦ none
          | some new_index ↦
              let new_order = kit.move hashes old_index new_index in
              some (record {
                local_order = new_order;
                sort_field = manual;
                priority_hash = active_id;
                priority = new_index + 1;
                reorder = new_order;
              })
        ]
      ]
