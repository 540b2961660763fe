-- ===== src/Dashboard/PageLaws.antt =====
-- The page of the list: what every event keeps, and which chips the filter drawer shows.
use haul.Base.{
  ◌≡◌, refl, true, ◌⊎◌, Bool-cases, Option-cases, inl, inr, Option, none, some, List, [], ◌∷◌,
  String, str_eq,
}
use haul.Dashboard.{StatusFilter, active, is_manual, View, ArrayMove, handle_drag_end, index_of}
use haul.Dashboard.Filters.{IsSelection, toggle_status-IsSelection}
use haul.Dashboard.Page.{
  filter_of, initial_filters, PageState, first_page, PageEvent, click_pill, clear_all, pick_sort,
  toggle_drawer, drag_end, show_dialog, close_dialog, open_menu, close_menu, open_submodal,
  close_submodal, dropped, on_view, on_page, run_page,
}

-- The pills are a selection, and the order of a drag is kept in the manual sort only.
abbrev pub IsCoherent : View → Type 0
IsCoherent v =
    IsSelection v.status_filters × ((v.local_order ≡ none) ⊎ (is_manual v.sort_field ≡ true))

one-IsSelection : (f : StatusFilter) → IsSelection (f ∷ [])
one-IsSelection active = inl refl
one-IsSelection _ = inr (λ e. cc, refl, (refl, tt))

initial_filters-IsSelection : (s : Option String) → IsSelection (initial_filters s)
unfolding initial_filters
initial_filters-IsSelection none = inl refl
initial_filters-IsSelection (some s) = elim (Option-cases (filter_of s)) [
  | inl e ↦ rw (initial_filters, e) (inl refl)
  | inr w ↦ rw (initial_filters, w.1) (one-IsSelection w.0)
]

dropped-IsCoherent :
    (kit : ArrayMove) (hashes : List String) (a : String) (o : Option String) (v : View)
    → IsCoherent v
    → IsCoherent (dropped (handle_drag_end kit hashes a o) v)
unfolding dropped handle_drag_end
dropped-IsCoherent kit hashes a none v h = h
dropped-IsCoherent kit hashes a (some b) v h = elim (Bool-cases (str_eq a b)) [
  | inl e ↦ rw e h
  | inr e ↦ elim (Option-cases (index_of hashes a)) [
    | inl n ↦ rw (e, n) h
    | inr w ↦ elim (Option-cases (index_of hashes b)) [
      | inl n ↦ rw (e, w.1, n) h
      | inr u ↦ rw (e, w.1, u.1) (h.0, inr refl)
    ]
  ]
]

on_view-IsCoherent :
    (kit : ArrayMove) (v : View) (e : PageEvent) → IsCoherent v → IsCoherent (on_view kit v e)
unfolding on_view
on_view-IsCoherent kit v (click_pill key) h =
    (toggle_status-IsSelection key v.status_filters h.0, h.1)
on_view-IsCoherent kit v clear_all h = (inl refl, h.1)
on_view-IsCoherent kit v (pick_sort field) h = (h.0, inl refl)
on_view-IsCoherent kit v (drag_end hashes a o) h = dropped-IsCoherent kit hashes a o v h
on_view-IsCoherent kit v _ h = h

on_page-IsCoherent :
    (kit : ArrayMove) (s : PageState) (e : PageEvent)
    → IsCoherent s.view
    → IsCoherent (on_page kit s e).view
unfolding on_page
on_page-IsCoherent kit s toggle_drawer h = h
on_page-IsCoherent kit s show_dialog h = h
on_page-IsCoherent kit s close_dialog h = h
on_page-IsCoherent kit s (open_menu t x y) h = h
on_page-IsCoherent kit s close_menu h = h
on_page-IsCoherent kit s (open_submodal kind t) h = h
on_page-IsCoherent kit s close_submodal h = h
on_page-IsCoherent kit s e h = on_view-IsCoherent kit s.view e h

run_page-IsCoherent :
    (kit : ArrayMove) (s : PageState) (es : List PageEvent)
    → IsCoherent s.view
    → IsCoherent (run_page kit s es).view
unfolding run_page
run_page-IsCoherent kit s [] h = h
run_page-IsCoherent kit s (e ∷ es) h =
    run_page-IsCoherent kit (on_page kit s e) es (on_page-IsCoherent kit s e h)

-- From any address on, whatever the user does, the pills are Active alone or a non-empty set of other
-- ones without repetition, and the order of a drag is kept in the manual sort only.
pub run_page-first_page :
    (kit : ArrayMove) (initial : Option String) (es : List PageEvent)
    → IsCoherent (run_page kit (first_page initial) es).view
unfolding first_page
run_page-first_page kit initial es =
    run_page-IsCoherent kit (first_page initial) es (initial_filters-IsSelection initial, inl refl)
