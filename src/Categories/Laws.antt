-- ===== src/Categories/Laws.antt =====
-- What the form for categories sends.
use haul.Base.{◌≡◌, refl, true, Option, none, some, truthy, Bool-cases, inl, inr, ◌⊎◌}
use haul.Api.Types.{Mutation}
use haul.Api.Admin.{use_create_category}
use haul.Detail.Trackers.{trim}
use haul.Categories.{
  Page, PageEvent, type_name, type_path, press_enter, click_add, created, rejected, on_page,
  or_undefined, handle_create, add_disabled, is_pending,
}

-- What an event sends, if anything, is the creation with the trimmed name, which is not empty, and
-- with the trimmed path, unless that is empty; it is then under way.
abbrev pub Creates : Page → Page × Option Mutation → Type 0
Creates p r =
    (r.1 ≡ none)
    ⊎ ((truthy (trim p.name) ≡ true)
        × ((r.0.pending ≡ some p.name)
            × (r.1 ≡ some (use_create_category (trim p.name) (or_undefined (trim p.save_path))))))

handle_create-Creates : (p : Page) → Creates p (handle_create p)
unfolding handle_create
handle_create-Creates p = elim (Bool-cases (truthy (trim p.name))) [
  | inl e ↦ rw e (inr (refl, (refl, refl)))
  | inr e ↦ rw e (inl refl)
]

-- Whatever happens, the page sends nothing but a creation with a name that is not blank, trimmed,
-- and with the trimmed path or none.
pub on_page-Creates : (e : PageEvent) (p : Page) → Creates p (on_page e p)
unfolding on_page
on_page-Creates (type_name s) p = inl refl
on_page-Creates (type_path s) p = inl refl
on_page-Creates press_enter p = handle_create-Creates p
on_page-Creates click_add p = elim (Bool-cases (add_disabled p)) [
  | inl e ↦ rw e (inl refl)
  | inr e ↦ rw e (handle_create-Creates p)
]
on_page-Creates created p = inl refl
on_page-Creates (rejected message) p = inl refl

-- While a creation is under way the button sends nothing, but the Enter key sends the form again.
pub press_enter_twice :
    (p : Page)
    → truthy (trim p.name) ≡ true
    → let r = on_page press_enter p in
      ((on_page click_add r.0).1 ≡ none) × ((on_page press_enter r.0).1 ≡ r.1)
unfolding on_page handle_create add_disabled is_pending
press_enter_twice p e = (rw (e, e) refl, rw (e, e) refl)
