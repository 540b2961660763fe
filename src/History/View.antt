-- ===== src/History/View.antt =====
-- What web/ui/src/pages/activity/ActivityPage.tsx shows above the rows and in the table.
use haul.Base.{
  ℕ, Bool, ltb, Option, none, some, List, map, length, String, str_eq, ◌<>◌, if◌then◌else◌,
}
use haul.Api.Activity.{ActivityStatus, status_name, Order}
use haul.History.{ActivityPage}
use haul.History.Rows.{
  ActivityItem, status_tabs, SortableColumn, columns, header_arrow, Locale, RowView, row_view,
  Notice, notices, Pagination, pagination,
}

-- A tab: its text, its colors, and whether it is the chosen one.
pub record Tab : Type 0 where
  pub label : String
  pub border : String
  pub background : String
  pub color : String

unfoldable pub tab : ActivityStatus → ActivityStatus × String → Tab
tab chosen t =
    let is_active = str_eq (status_name chosen) (status_name t.0) in
    record {
      label = t.1;
      border =
          "1px solid "
          <> (if is_active then "var(--color-accent)" else "var(--color-border-default)");
      background = if is_active then "var(--color-accent)" else "var(--color-bg-surface)";
      color = if is_active then "#fff" else "var(--color-text-secondary)";
    }

-- A header of the table, with its arrow.
pub record Heading : Type 0 where
  pub column : SortableColumn
  pub arrow : Option Order

unfoldable pub heading : ActivityPage → SortableColumn → Heading
heading p c = record { column = c; arrow = header_arrow p c.key }

pub record PageView : Type 0 where
  pub total_text : Option String
  pub search : String
  pub tabs : List Tab
  pub headings : List Heading
  pub notices : List Notice
  pub rows : List RowView
  pub pagination : Option Pagination

-- `locale_number` is `toLocaleString`; the count of a reply, and its items.
unfoldable pub page_view :
    (ℕ → String) → Locale → Bool → Bool → ActivityPage → ℕ → List ActivityItem → PageView
unfolding tab heading
page_view locale_number js loading failed p total items = record {
  total_text = if ltb 0 total then some (locale_number total <> " total") else none;
  search = p.search_input;
  tabs = map (tab p.status) status_tabs;
  headings = map (heading p) columns;
  notices = notices loading failed p items;
  rows = map (row_view js) items;
  pagination = pagination (length items) total p;
}
