-- ===== src/Dashboard/Lines.antt =====
-- The rows and the queue line of web/ui/src/pages/torrents/TorrentList.tsx.
use haul.Base.{
  ℕ, suc, ◌+◌, ◌≡◌, refl, ap, ◌∙◌, Bool, true, false, ◌&&◌, ltb, leb, ◌-◌, arith, Option, none,
  some, List, [], ◌∷◌, length, map, keep, if◌then◌else◌,
}
use haul.Torrents.{TorrentInfo}
use haul.Dashboard.{SortField, is_manual, show_cap_line}
use haul.Dashboard.Listing.{Item, item, items, items_from}

abbrev pub has_line : Item → Bool
has_line i = elim i.cap_line [ none ↦ false | some n ↦ true ]

-- How many rows stand above the first line.
abbrev pub above_line : List Item → Option ℕ
above_line [] = none
above_line (i ∷ is) =
    let rest = above_line is in
    if has_line i then some 0 else elim rest [ none ↦ none | some n ↦ some (n + 1) ]

-- Whether the list has a line at all, from row `i` on.
abbrev lined : SortField → ℕ → ℕ → ℕ → Bool
lined field max_active count i =
    is_manual field && ltb 0 max_active && leb i max_active && ltb max_active count

items_from-torrents :
    (field : SortField) (max_active count i : ℕ) (ts : List TorrentInfo)
    → map (λ (r : Item). r.torrent) (items_from field max_active count i ts) ≡ ts
unfolding items_from
items_from-torrents field max_active count i [] = refl
items_from-torrents field max_active count i (t ∷ ts) =
    ap (λ l. t ∷ l) (items_from-torrents field max_active count (suc i) ts)

has_line-item :
    (field : SortField) (max_active count i : ℕ) (t : TorrentInfo)
    → has_line (item field max_active count i t) ≡ show_cap_line field max_active i count
unfolding item
has_line-item field max_active count i t = ground arith

lines-items_from :
    (field : SortField) (max_active count i : ℕ) (ts : List TorrentInfo)
    → i + length ts ≡ count
    → length (keep has_line (items_from field max_active count i ts))
      ≡ (if lined field max_active count i then 1 else 0)
unfolding items_from show_cap_line
lines-items_from field max_active count i [] e = ground arith
lines-items_from field max_active count i (t ∷ ts) e =
    let ih = lines-items_from field max_active count (suc i) ts (omega (arith, e)) in
    let h = has_line-item field max_active count i t in ground (arith, ih, h)

above_line-items_from :
    (field : SortField) (max_active count i : ℕ) (ts : List TorrentInfo)
    → i + length ts ≡ count
    → above_line (items_from field max_active count i ts)
      ≡ (if lined field max_active count i then some (max_active - i) else none)
unfolding items_from show_cap_line
above_line-items_from field max_active count i [] e = ground arith
above_line-items_from field max_active count i (t ∷ ts) e =
    let ih = above_line-items_from field max_active count (suc i) ts (omega (arith, e)) in
    let h = has_line-item field max_active count i t in ground (arith, ih, h)

-- The list has a row for each listed torrent, in order. In the manual order it has one queue line,
-- with as many rows above it as torrents may be active, if that number is positive and there are more
-- rows; else it has none.
pub items_lem :
    (field : SortField) (max_active : ℕ) (listed : List TorrentInfo)
    → let drawn = items field max_active listed in
      let has = is_manual field && ltb 0 max_active && ltb max_active (length listed) in
      (map (λ (r : Item). r.torrent) drawn ≡ listed)
      × (length (keep has_line drawn) ≡ (if has then 1 else 0))
      × (above_line drawn ≡ (if has then some max_active else none))
unfolding items
items_lem field max_active listed = (
  items_from-torrents field max_active (length listed) 0 listed,
  lines-items_from field max_active (length listed) 0 listed (omega arith) ∙ ground arith,
  above_line-items_from field max_active (length listed) 0 listed (omega arith) ∙ ground arith,
)
