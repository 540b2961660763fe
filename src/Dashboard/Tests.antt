-- ===== src/Dashboard/Tests.antt =====
-- The dashboard's theorems at concrete torrents.
use mathlib.Core.Bool.{false≢true}
use text.Mathlib.TextEquality.{eq_iff}
use text.Mathlib.Text.{find?}
use mathlib.Core.List.{Perm}
use haul.Base.{
  ◌+◌, ◌-◌, ◌≤◌, ◌≡◌, ◌↔◌, refl, true, false, none, some, List, [], ◌∷◌, keep, get_elem?, length,
  map, String, pos, truthy, ltb, ◌&&◌, if◌then◌else◌,
}
use haul.Torrents.{TorrentInfo, VisualKey, torrent_visual}
use haul.Dashboard.{
  active, paused, stalled, matches_status, Platform, View, manual, size, progress, speed,
  sort_torrents, filtered, is_manual, toggle_status, Drop, handle_drag_end, sort_by, insert_by,
  compare_torrents,
}
use haul.Dashboard.Sorting.{Descends, sort_torrents_lem}
use haul.Dashboard.Filters.{torrent_visual-stalled_iff, passes, filtered-perm}
use haul.Dashboard.Drag.{handle_drag_end_lem}
use haul.Dashboard.Kit.{kit}
use haul.Dashboard.Page.{
  PageEvent, click_pill, click_category, pick_sort, drag_end, run_page, first_page, categories,
  category_count, add_texts, add_text,
}
use haul.Dashboard.PageLaws.{IsCoherent, run_page-first_page}
use haul.Dashboard.Listing.{Item, items}
use haul.Dashboard.Lines.{has_line, above_line, items_lem}
use haul.Dashboard.Chips.{occurrences, occurrences-categories}

abbrev js : Platform
js = record {
  lower = λ s. s;
  includes = λ s q. elim (find? s q) [ none ↦ false | some _ ↦ true ];
  locale_compare = λ a b. pos 0;
  get_time = λ s. none;
}

abbrev film : TorrentInfo
film = record {
  info_hash = "aa";
  name = "film";
  status = "downloading";
  save_path = "/downloads";
  category = "movies";
  tags = none;
  size = 900;
  downloaded = 300;
  uploaded = 0;
  progress = 333;
  download_rate = 10;
  upload_rate = 1;
  seeds = 3;
  peers = 4;
  seed_ratio = 0;
  eta = 60;
  added_at = "2026-01-01";
  completed_at = none;
  content_path = "/downloads/film";
  stalled = false;
  stalled_at = none;
  requester = none;
}

abbrev show : TorrentInfo
show = record film { info_hash = "bb"; name = "show"; status = "seeding"; size = 1200 }

abbrev dead : TorrentInfo
dead = record film { info_hash = "cc"; name = "dead"; status = "paused"; stalled_at = some "2026" }

abbrev torrents : List TorrentInfo
torrents = film ∷ show ∷ dead ∷ []

abbrev view : View
view = record {
  status_filters = active ∷ [];
  category_filters = "movies" ∷ [];
  tag_filters = [];
  sort_field = manual;
  search = "";
  local_order = none;
}

sort-run :
    map (λ (t : TorrentInfo). t.info_hash) (sort_torrents js torrents size)
    ≡ "bb" ∷ "aa" ∷ "cc" ∷ []
unfolding sort_torrents sort_by compare_torrents
sort-run = refl

active-run : map (λ (t : TorrentInfo). t.info_hash) (filtered js view torrents) ≡ "aa" ∷ []
unfolding filtered sort_torrents matches_status
active-run = refl

toggle-run : toggle_status paused (active ∷ []) ≡ paused ∷ []
unfolding toggle_status
toggle-run = refl

torrent_visual-stalled_iff_example :
    ((torrent_visual dead).key ≡ VisualKey.stalled) ↔ (matches_status dead stalled ≡ true)
torrent_visual-stalled_iff_example = torrent_visual-stalled_iff dead

filtered-perm_example : Perm (filtered js view torrents) (keep (passes js view) torrents)
filtered-perm_example = filtered-perm js view torrents

sort_torrents_example :
    Perm (sort_torrents js torrents speed) torrents
    × Descends (λ (t : TorrentInfo). t.size) (sort_torrents js torrents size)
    × Descends (λ (t : TorrentInfo). t.progress) (sort_torrents js torrents progress)
    × Descends
        (λ (t : TorrentInfo). t.download_rate + t.upload_rate)
        (sort_torrents js torrents speed)
    × (sort_torrents js torrents manual ≡ torrents)
sort_torrents_example = sort_torrents_lem js torrents speed

abbrev hashes : List String
hashes = "aa" ∷ "bb" ∷ "cc" ∷ []

handle_drag_end_example :
    (d : Drop) × (handle_drag_end kit hashes "aa" (some "cc") ≡ some d)
    × Perm d.local_order hashes
    × (get_elem? d.local_order (d.priority - 1) ≡ some "aa")
    × (get_elem? hashes (d.priority - 1) ≡ some "cc")
    × (1 ≤ d.priority)
    × (d.priority_hash ≡ "aa")
    × (d.reorder ≡ d.local_order)
    × (d.sort_field ≡ manual)
handle_drag_end_example =
    handle_drag_end_lem kit hashes "aa" "cc" (λ e. false≢true ((eq_iff "aa" "cc").1 e)) refl refl

abbrev session : List PageEvent
session =
    click_pill paused
    ∷ pick_sort size
    ∷ drag_end ("aa" ∷ "bb" ∷ "cc" ∷ []) "cc" (some "aa")
    ∷ click_category "movies"
    ∷ click_pill paused
    ∷ []

run_page-first_page_example : IsCoherent (run_page kit (first_page (some "stalled")) session).view
run_page-first_page_example = run_page-first_page kit (some "stalled") session

occurrences-categories_example :
    occurrences "movies" (categories (λ a b. pos 0) torrents)
    ≡ (if truthy "movies" && ltb 0 (category_count torrents "movies") then 1 else 0)
occurrences-categories_example = occurrences-categories (λ a b. pos 0) torrents "movies"

categories_run : categories (λ a b. pos 0) torrents ≡ "movies" ∷ []
unfolding categories add_texts add_text sort_by insert_by
categories_run = refl

items_example :
    let drawn = items manual 2 torrents in
    let has = is_manual manual && ltb 0 2 && ltb 2 (length torrents) in
    (map (λ (r : Item). r.torrent) drawn ≡ torrents)
    × (length (keep has_line drawn) ≡ (if has then 1 else 0))
    × (above_line drawn ≡ (if has then some 2 else none))
items_example = items_lem manual 2 torrents
