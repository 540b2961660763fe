-- ===== src/History/Ranges.antt =====
-- The line below the table of web/ui/src/pages/activity/ActivityPage.tsx: which items a page shows.
use haul.Base.{ℕ, ◌+◌, ◌-◌, ◌≤◌, ◌<◌, min, ◌≡◌, arith, leb, if◌then◌else◌}
use haul.History.{ActivityPage, page_size, next_page}
use haul.History.Rows.{shown_range}

-- The range that is shown for the items that the server has from the page's start on, at most a page
-- of them.
abbrev pub range_of : ℕ → ActivityPage → ℕ × ℕ
range_of total p = shown_range p.offset (min page_size (total - p.offset)) total

-- On a page that starts before the end, the range that is shown is not empty and lies among the items;
-- Next leads to a page that again starts before the end, and whose range starts right behind this one,
-- or stays on the page where this range reaches the end.
pub next_page-range_of :
    (total : ℕ) (p : ActivityPage)
    → p.offset < total
    → ((range_of total p).0 ≤ (range_of total p).1)
      × ((range_of total p).1 ≤ total)
      × ((next_page total p).offset < total)
      × ((range_of total (next_page total p)).0 ≡ (
          if leb total (range_of total p).1
          then (range_of total p).0
          else (range_of total p).1 + 1))
unfolding shown_range next_page
next_page-range_of total p h = ground arith
