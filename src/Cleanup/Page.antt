-- ===== src/Cleanup/Page.antt =====
-- web/ui/src/pages/system/Diagnostics.tsx: the page around the cards, what a card shows, and the dialog
-- that confirms a cleanup.
use haul.Base.{
  ℕ, ◌+◌, Bool, true, false, ◌==◌, ltb, Option, none, some, List, [], ◌∷◌, length, map, any, String,
  ◌<>◌, str_eq, show_nat, first_chars, code_units, if◌then◌else◌,
}
use haul.Cleanup.{Card, cleanup_count, all_selected, some_selected}
use haul.Cleanup.History.{plural}

pub record DiagnosticSummary : Type 0 where
  pub name : String
  pub description : String
  pub row_count : ℕ

pub record DiagnosticRow : Type 0 where
  pub id : String
  pub summary : String
  pub why_flagged : String
  pub suggested_action : String

-- `useDiagnostics`: a first load, an error, or the summaries, if there are any.
pub data Summaries : Type 0 where
  is_loading failed : Summaries
  fetched : Option (List DiagnosticSummary) → Summaries

pub data Page : Type 0 where
  loading load_failed all_clean : Page
  cards : List DiagnosticSummary → Page

abbrev total : List DiagnosticSummary → ℕ
total [] = 0
total (d ∷ ds) = d.row_count + total ds

abbrev or_empty {ℓ} : {A : Type ℓ} → Option (List A) → List A
or_empty none = []
or_empty (some xs) = xs

unfoldable pub page : Summaries → Page
page is_loading = loading
page failed = load_failed
page (fetched summaries) =
    if total (or_empty summaries) == 0 then all_clean else cards (or_empty summaries)

unfoldable pub is_flagged : DiagnosticSummary → Bool
is_flagged summary = ltb 0 summary.row_count

-- `useDiagnostic(open ? summary.name : null)`
unfoldable pub detail_name : DiagnosticSummary → Card → Option String
detail_name summary c = if c.expanded then some summary.name else none

-- A row of the table: whether it is ticked, and its texts.
pub record Line : Type 0 where
  pub ticked : Bool
  pub id : String
  pub summary : String
  pub why : String

unfoldable pub short_id : String → String
short_id id = if ltb 16 (length (code_units id)) then first_chars 12 id <> "…" else id

unfoldable pub line : Card → DiagnosticRow → Line
unfolding short_id
line c r = record {
  ticked = any (str_eq r.id) c.selected;
  id = short_id r.id;
  summary = r.summary;
  why = r.why_flagged;
}

abbrev row_ids : List DiagnosticRow → List String
row_ids rows = map (λ (r : DiagnosticRow). r.id) rows

-- The box at the head of the table.
pub record Box : Type 0 where
  pub checked : Bool
  pub indeterminate : Bool
  pub title : String

unfoldable pub head_box : List DiagnosticRow → Card → Box
head_box rows c = record {
  checked = all_selected (row_ids rows) c;
  indeterminate = some_selected (row_ids rows) c;
  title = if all_selected (row_ids rows) c then "Deselect all" else "Select all";
}

pub record Table : Type 0 where
  pub box : Box
  pub lines : List Line
  pub note : String
  pub has_clear : Bool
  pub button : String

unfoldable pub selection_note : Card → String
selection_note c =
    if ltb 0 (length c.selected)
    then show_nat (length c.selected) <> " selected"
    else "Click rows or use the checkboxes to select. Clean up acts on selection — or all rows when nothing is selected."

unfoldable pub button_text : List DiagnosticRow → Card → String
button_text rows c =
    if ltb 0 (length c.selected)
    then " Clean up " <> show_nat (length c.selected) <> " selected"
    else " Clean up all " <> show_nat (length rows)

-- What an open card shows: `useDiagnostic` loads, or has its rows, if there are any.
pub data Body : Type 0 where
  closed loading_rows no_rows : Body
  table : Table → Body

abbrev table_of : List DiagnosticRow → Card → Body
table_of [] c = no_rows
table_of (r ∷ rs) c = table record {
  box = head_box (r ∷ rs) c;
  lines = map (line c) (r ∷ rs);
  note = selection_note c;
  has_clear = ltb 0 (length c.selected);
  button = button_text (r ∷ rs) c;
}

unfoldable pub body : Bool → Option (List DiagnosticRow) → Card → Body
body loads rows c =
    if c.expanded then (if loads then loading_rows else table_of (or_empty rows) c) else closed

-- `{confirmOpen && detail.data && ...}`: the dialog.
pub record ConfirmModal : Type 0 where
  pub title : String
  pub message : String
  pub ticked : Bool
  pub disabled : Bool
  pub button : String

abbrev suggested : List DiagnosticRow → String
suggested [] = "Delete the matching rows"
suggested (r ∷ rs) = r.suggested_action

unfoldable pub confirm_button : Bool → Bool → String
confirm_button true hard_delete = "Cleaning…"
confirm_button false true = "Delete permanently"
confirm_button false false = "Move to cleanup history"

unfoldable pub confirm_modal :
    DiagnosticSummary → Bool → Option (List DiagnosticRow) → Card → Option ConfirmModal
confirm_modal summary pending none c = none
confirm_modal summary pending (some rows) c =
    let count = cleanup_count (row_ids rows) c in
    if c.confirm_open
    then some record {
      title = "Clean up " <> show_nat count <> " row" <> plural count <> "?";
      message = summary.description <> " — " <> suggested rows <> ".";
      ticked = c.hard_delete;
      disabled = pending;
      button = confirm_button pending c.hard_delete;
    }
    else none
