-- ===== src/History.antt =====
-- web/ui/src/pages/activity/ActivityPage.tsx: the state of the activity page, with the effects
-- that run after an action, and its pages.
use haul.Base.{
  ℕ, ◌+◌, ◌-◌, ◌*◌, ◌/◌, min, max, Bool, true, false, not, ◌&&◌, ◌||◌, Option, none, some, leb, ltb,
  ◌==◌, if◌then◌else◌, String, str_eq,
}
use haul.Api.Activity.{
  ActivitySort, added_at, ActivityStatus, all, Order, asc, desc, ActivityListParams, sort_name,
  status_name, order_name,
}
mod Rows
mod Ranges
mod Laws
mod View
mod Tests

abbrev pub page_size : ℕ
page_size = 50

pub record ActivityPage : Type 0 where
  pub search_input : String
  pub search : String
  pub status : ActivityStatus
  pub sort : ActivitySort
  pub order : Order
  pub offset : ℕ

abbrev pub first_view : ActivityPage
first_view = record {
  search_input = "";
  search = "";
  status = all;
  sort = added_at;
  order = desc;
  offset = 0;
}

unfoldable pub list_params : ActivityPage → ActivityListParams
list_params p = record {
  q = some p.search;
  status = some p.status;
  sort = some p.sort;
  order = some p.order;
  limit = some page_size;
  offset = some p.offset;
}

unfoldable pub page_number : ActivityPage → ℕ
page_number p = p.offset / page_size + 1

unfoldable pub total_pages : ℕ → ℕ
total_pages total = max 1 ((total + page_size - 1) / page_size)

abbrev pub flipped : Order → Order
flipped asc = desc
flipped desc = asc

unfoldable pub on_header_click : ActivitySort → ActivityPage → ActivityPage
on_header_click col p =
    if str_eq (sort_name p.sort) (sort_name col)
    then record p { order = flipped p.order }
    else record p { sort = col; order = desc }

-- The buttons: `disabled={offset === 0}` and `disabled={offset + PAGE_SIZE >= total}`.
unfoldable pub previous_page : ActivityPage → ActivityPage
previous_page p = if p.offset == 0 then p else record p { offset = p.offset - page_size }

unfoldable pub next_page : ℕ → ActivityPage → ActivityPage
next_page total p =
    if leb total (p.offset + page_size) then p else record p { offset = p.offset + page_size }

abbrev pub same_filters : ActivityPage → ActivityPage → Bool
same_filters p p' =
    str_eq p.search p'.search
    && str_eq (status_name p.status) (status_name p'.status)
    && str_eq (sort_name p.sort) (sort_name p'.sort)
    && str_eq (order_name p.order) (order_name p'.order)

-- The effect on [search, status, sort, order].
unfoldable pub reset_offset : ActivityPage → ActivityPage → ActivityPage
reset_offset p p' = if same_filters p p' then p' else record p' { offset = 0 }

-- What the user does, and the end of the 250 ms after which the search text is taken over. The
-- number of items that the server has reported goes with Next.
pub data Action : Type 0 where
  type_search : String → Action
  debounced : Action
  pick_status : ActivityStatus → Action
  click_header : ActivitySort → Action
  previous : Action
  next : ℕ → Action

-- `trim` is the parameter.
module _ (trim : String → String) where
  unfoldable pub apply_action : Action → ActivityPage → ActivityPage
  unfolding on_header_click previous_page next_page
  apply_action (type_search text) p = record p { search_input = text }
  apply_action debounced p = record p { search = trim p.search_input }
  apply_action (pick_status status) p = record p { status = status }
  apply_action (click_header col) p = on_header_click col p
  apply_action previous p = previous_page p
  apply_action (next total) p = next_page total p

  unfoldable pub on_action : Action → ActivityPage → ActivityPage
  unfolding apply_action reset_offset
  on_action a p = reset_offset p (apply_action a p)
