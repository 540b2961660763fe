-- ===== src/Categories.antt =====
-- web/ui/src/pages/categories/CategoriesPage.tsx: the form that creates a category and the list.
use haul.Base.{
  ℕ, Bool, true, false, not, ◌||◌, ◌==◌, Option, none, some, List, [], ◌∷◌, length, map, String,
  ◌<>◌, truthy, truthy?, if◌then◌else◌,
}
use haul.Api.Types.{Mutation}
use haul.Api.Admin.{use_create_category, use_delete_category}
use haul.Confirm.{ConfirmOptions}
use haul.Detail.{Toast, success, error}
use haul.Detail.Trackers.{trim}
mod Laws
mod Tests

pub record Category : Type 0 where
  pub name : String
  pub save_path : String

-- The texts of the two inputs. A creation under way is kept with the name that its callback shows:
-- the callbacks of `mutate` run for the latest call only.
pub record Page : Type 0 where
  pub name : String
  pub save_path : String
  pub pending : Option String
  pub toasts : List Toast

abbrev pub opened_page : Page
opened_page = record { name = ""; save_path = ""; pending = none; toasts = [] }

unfoldable pub is_pending : Page → Bool
is_pending p = elim p.pending [ none ↦ false | some name ↦ true ]

-- `text || undefined`
abbrev pub or_undefined : String → Option String
or_undefined s = if truthy s then some s else none

unfoldable pub handle_create : Page → Page × Option Mutation
handle_create p =
    if truthy (trim p.name)
    then (
      record p { pending = some p.name },
      some (use_create_category (trim p.name) (or_undefined (trim p.save_path))),
    )
    else (p, none)

unfoldable pub add_disabled : Page → Bool
add_disabled p = not (truthy (trim p.name)) || is_pending p

pub data PageEvent : Type 0 where
  type_name type_path : String → PageEvent
  press_enter click_add created : PageEvent
  rejected : String → PageEvent

unfoldable pub on_created : Option String → Page → Page
on_created none p = p
on_created (some name) p = record p {
  name = "";
  save_path = "";
  pending = none;
  toasts = success ("Created category: " <> name) ∷ p.toasts;
}

unfoldable pub on_rejected : Option String → String → Page → Page
on_rejected none message p = p
on_rejected (some name) message p = record p { pending = none; toasts = error message ∷ p.toasts }

-- An event, with the request that it sends. The button is disabled at times, the Enter key is not.
unfoldable pub on_page : PageEvent → Page → Page × Option Mutation
on_page (type_name s) p = (record p { name = s }, none)
on_page (type_path s) p = (record p { save_path = s }, none)
on_page press_enter p = handle_create p
on_page click_add p = if add_disabled p then (p, none) else handle_create p
on_page created p = (on_created p.pending p, none)
on_page (rejected message) p = (on_rejected p.pending message p, none)

abbrev pub delete_options : String → ConfirmOptions
delete_options name = record {
  title = "Delete category";
  message =
      "Delete category \"" <> name
      <> "\"? Torrents in this category keep their tag but lose the association.";
  confirm_label = some "Delete";
  danger = none;
}

-- `handleDelete`: the question, what an answer sends, and the notice of its success. `encode` is
-- `encodeURIComponent`.
unfoldable pub handle_delete :
    (String → String) → String → ConfirmOptions × ((Bool → Option Mutation) × Toast)
handle_delete encode name = (
  delete_options name,
  (
    λ yes. if yes then some (use_delete_category encode name) else none,
    success ("Deleted: " <> name),
  ),
)

-- What stands below the form: bars while the categories load, then a text or a row for each.
pub data Shown : Type 0 where
  skeleton no_categories : Shown
  rows : List (String × Option String) → Shown

abbrev path_line : String → Option String
path_line path = if truthy path then some path else none

unfoldable pub list_of : Option (List Category) → List Shown
list_of none = []
list_of (some cs) =
    (if length cs == 0 then no_categories else rows (map (λ c. (c.name, path_line c.save_path)) cs))
    ∷ []

unfoldable pub page : Bool → Option (List Category) → List Shown
unfolding list_of
page loading cs = if loading then skeleton ∷ list_of cs else list_of cs
