-- ===== src/History/Tests.antt =====
-- The activity page after a few clicks.
use haul.Base.{leb, ◌≤◌, ◌<◌, if◌then◌else◌, ◌+◌, ◌≡◌, refl, arith}
use haul.Api.Activity.{name, desc}
use haul.History.{
  ActivityPage, first_view, next_page, click_header, on_action, apply_action, on_header_click,
  reset_offset,
}
use haul.History.Ranges.{range_of, next_page-range_of}

abbrev third_page : ActivityPage
third_page = record first_view { offset = 100 }

-- A click on the column Name goes back to the first page.
click-name :
    on_action (λ s. s) (click_header name) third_page
    ≡ record first_view { sort = name; order = desc; offset = 0 }
unfolding on_action apply_action on_header_click reset_offset
click-name = refl

next_page-range_of_example :
    ((range_of 120 third_page).0 ≤ (range_of 120 third_page).1)
    × ((range_of 120 third_page).1 ≤ 120)
    × ((next_page 120 third_page).offset < 120)
    × ((range_of 120 (next_page 120 third_page)).0 ≡ (
        if leb 120 (range_of 120 third_page).1
        then (range_of 120 third_page).0
        else (range_of 120 third_page).1 + 1))
next_page-range_of_example = next_page-range_of 120 third_page (omega arith)
