-- ===== src/Shell/Laws.antt =====
-- The sidebar: what holds after every event, and what a reload restores.
use haul.Base.{
  ℕ, ◌≡◌, refl, ap, ◌∙◌, arith, Bool, true, false, not, ◌&&◌, ◌||◌, Bool-cases, inl, inr, Option,
  some, List, [], ◌∷◌, String, if◌then◌else◌,
}
use haul.Shell.{
  ViewportMode, compute_viewport_mode, changes, differ, on_resize, ShellState, is_mobile, bool_text,
  stored_flag, mount, ShellEvent, resize, collapse, open_menu, close_menu, navigate, can_collapse,
  on_click, effects, on_shell, run_shell, sidebar_width, main_margin, has_backdrop, is_slid_out,
}

-- The mode fits the window, the drawer is open in a narrow window only, and the choice is stored.
abbrev pub IsSettled : ShellState → Type 0
IsSettled s =
    (s.mode ≡ compute_viewport_mode s.inner_width)
    × ((s.mobile_open && not (is_mobile s.mode)) ≡ false)
    × (s.stored ≡ some (bool_text s.user_collapsed))

on_resize-mode :
    (w w' : ℕ) (mode : ViewportMode)
    → mode ≡ compute_viewport_mode w
    → on_resize w w' mode ≡ compute_viewport_mode w'
unfolding on_resize changes compute_viewport_mode
on_resize-mode w w' mode h = ground arith

on_click-mode :
    (s : ShellState) (e : ShellEvent)
    → s.mode ≡ compute_viewport_mode s.inner_width
    → (on_click s e).mode ≡ compute_viewport_mode (on_click s e).inner_width
unfolding on_click
on_click-mode s (resize w) h = on_resize-mode s.inner_width w s.mode h
on_click-mode s collapse h = ground arith
on_click-mode s open_menu h = ground arith
on_click-mode s close_menu h = ground arith
on_click-mode s (navigate path) h = h

-- An event opens the drawer in a narrow window only.
on_click-drawer :
    (s : ShellState) (e : ShellEvent)
    → (s.mobile_open && not (is_mobile s.mode)) ≡ false
    → ((on_click s e).mobile_open && not (is_mobile s.mode)) ≡ false
unfolding on_click
on_click-drawer s (resize w) h = h
on_click-drawer s collapse h = elim (Bool-cases (can_collapse s)) [
  | inl e ↦ rw e h
  | inr e ↦ rw e h
]
on_click-drawer s open_menu h = elim (Bool-cases (is_mobile s.mode)) [
  | inl e ↦ ground arith
  | inr e ↦ ground arith
]
on_click-drawer s close_menu h = elim (Bool-cases (is_mobile s.mode)) [
  | inl e ↦ ground arith
  | inr e ↦ ground arith
]
on_click-drawer s (navigate path) h = h

drawer_closes :
    (before after opened moved : Bool)
    → (opened && not before) ≡ false
    → ((if (before && not after) || moved then false else opened) && not after) ≡ false
drawer_closes before after opened moved h = ground arith

on_click-stored : (s : ShellState) (e : ShellEvent) → (on_click s e).stored ≡ s.stored
unfolding on_click
on_click-stored s (resize w) = refl
on_click-stored s collapse = ground arith
on_click-stored s open_menu = ground arith
on_click-stored s close_menu = ground arith
on_click-stored s (navigate path) = refl

-- The stored text after an effect that writes it only where the choice changed.
stored_follows :
    (a b : Bool) (o : Option String)
    → o ≡ some (bool_text a)
    → (if differ a b then some (bool_text b) else o) ≡ some (bool_text b)
stored_follows true true o h = h
stored_follows true false o h = refl
stored_follows false true o h = refl
stored_follows false false o h = h

on_shell-IsSettled : (s : ShellState) (e : ShellEvent) → IsSettled s → IsSettled (on_shell s e)
unfolding on_shell effects
on_shell-IsSettled s e h = (
  on_click-mode s e h.0,
  drawer_closes (is_mobile s.mode) (is_mobile (on_click s e).mode) (on_click s e).mobile_open _
      (on_click-drawer s e h.1),
  stored_follows s.user_collapsed (on_click s e).user_collapsed (on_click s e).stored
      (on_click-stored s e ∙ h.2),
)

run_shell-IsSettled :
    (s : ShellState) (es : List ShellEvent) → IsSettled s → IsSettled (run_shell s es)
unfolding run_shell
run_shell-IsSettled s [] h = h
run_shell-IsSettled s (e ∷ es) h = run_shell-IsSettled (on_shell s e) es (on_shell-IsSettled s e h)

mount-IsSettled : (stored : Option String) (w : ℕ) (path : String) → IsSettled (mount stored w path)
unfolding mount
mount-IsSettled stored w path = (refl, refl, refl)

-- Whatever happens after the page was loaded, the mode fits the width of the window, the drawer is open
-- in a narrow window only, and the stored text is the choice that the user made.
pub run_shell-mount :
    (stored : Option String) (w : ℕ) (path : String) (es : List ShellEvent)
    → IsSettled (run_shell (mount stored w path) es)
run_shell-mount stored w path es =
    run_shell-IsSettled (mount stored w path) es (mount-IsSettled stored w path)

stored_flag-bool_text : (b : Bool) → stored_flag (some (bool_text b)) ≡ b
stored_flag-bool_text true = refl
stored_flag-bool_text false = refl

-- After a reload in a window of any width the choice is the one made before, whatever happened.
pub mount-run_shell :
    (stored : Option String) (w w' : ℕ) (path : String) (es : List ShellEvent)
    → (mount (run_shell (mount stored w path) es).stored w' path).user_collapsed
      ≡ (run_shell (mount stored w path) es).user_collapsed
unfolding mount
mount-run_shell stored w w' path es =
    ap stored_flag (run_shell-mount stored w path es).2
    ∙ stored_flag-bool_text (run_shell (mount stored w path) es).user_collapsed

-- Whatever happens, the page's content starts where the sidebar ends, or at 0 where the sidebar is a
-- drawer, and the backdrop is there exactly while the drawer is in view.
pub main_margin_lem :
    (s : ShellState)
    → (main_margin s ≡ (if is_mobile s.mode then 0 else sidebar_width s))
      × (has_backdrop s ≡ (is_mobile s.mode && not (is_slid_out s)))
unfolding main_margin sidebar_width has_backdrop is_slid_out
main_margin_lem s = (ground arith, ground arith)
