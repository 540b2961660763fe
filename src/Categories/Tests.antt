-- ===== src/Categories/Tests.antt =====
-- The page for categories at a form that is filled in.
use haul.Base.{◌≡◌, refl, false, none, some, [], ◌∷◌}
use haul.Detail.Trackers.{trim, trim_start, trim_end}
use haul.Api.Admin.{use_create_category}
use haul.Categories.{
  Page, opened_page, on_page, press_enter, handle_create, Category, page, rows, list_of,
}

abbrev filled : Page
filled = record opened_page { name = " movies "; save_path = "  " }

press_enter-run : (on_page press_enter filled).1 ≡ some (use_create_category "movies" none)
unfolding on_page handle_create trim trim_start trim_end
press_enter-run = refl

abbrev tv : Category
tv = record { name = "tv"; save_path = "" }

page-run : page false (some (tv ∷ [])) ≡ rows (("tv", none) ∷ []) ∷ []
unfolding page list_of
page-run = refl
