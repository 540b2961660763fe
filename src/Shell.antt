-- ===== src/Shell.antt =====
-- web/ui/src/shared/Shell.tsx, with the navigation of web/ui/src/layouts/Shell.tsx: the sidebar and the
-- drawer of narrow windows. Shared widgets: shared/ErrorBoundary.tsx, shared/Modal.tsx, shared/Pill.tsx.
use haul.Base.{
  ℕ, Bool, true, false, not, ◌&&◌, ◌||◌, ltb, leb, Option, none, some, List, [], ◌∷◌, String,
  str_eq, if◌then◌else◌,
}
mod Laws
mod Tests

pub record NavItem : Type 0 where
  pub to : String
  pub label : String

-- `nav`
abbrev pub nav : List NavItem
nav =
    record { to = "/"; label = "Dashboard" }
    ∷ record { to = "/activity"; label = "Activity" }
    ∷ record { to = "/categories"; label = "Categories" }
    ∷ record { to = "/media-management"; label = "Media Mgmt" }
    ∷ record { to = "/system/diagnostics"; label = "System" }
    ∷ record { to = "/system/logs"; label = "Logs" }
    ∷ record { to = "/settings"; label = "Settings" }
    ∷ []

pub data ViewportMode : Type 0 where
  mobile compact wide : ViewportMode

unfoldable pub compute_viewport_mode : ℕ → ViewportMode
compute_viewport_mode inner_width =
    if ltb inner_width 768 then mobile else if ltb inner_width 1100 then compact else wide

-- The two media queries, and whether one of them reports a change.
abbrev pub is_max_767 : ℕ → Bool
is_max_767 w = leb w 767

abbrev pub is_max_1099 : ℕ → Bool
is_max_1099 w = leb w 1099

abbrev pub differ : Bool → Bool → Bool
differ a b = (a && not b) || (not a && b)

unfoldable pub changes : ℕ → ℕ → Bool
changes w w' = differ (is_max_767 w) (is_max_767 w') || differ (is_max_1099 w) (is_max_1099 w')

-- The state of `useViewportMode` after the window changed its width.
unfoldable pub on_resize : ℕ → ℕ → ViewportMode → ViewportMode
on_resize w w' mode = if changes w w' then compute_viewport_mode w' else mode

-- The shell, with the window's width and what is stored under `collapsedStorageKey`.
pub record ShellState : Type 0 where
  pub user_collapsed : Bool
  pub mobile_open : Bool
  pub mode : ViewportMode
  pub inner_width : ℕ
  pub stored : Option String
  pub path : String

abbrev pub is_mobile : ViewportMode → Bool
is_mobile mobile = true
is_mobile _ = false

abbrev pub is_compact : ViewportMode → Bool
is_compact compact = true
is_compact _ = false

abbrev pub bool_text : Bool → String
bool_text true = "true"
bool_text false = "false"

abbrev pub stored_flag : Option String → Bool
stored_flag none = false
stored_flag (some s) = str_eq s "true"

-- The first render and its effects.
unfoldable pub mount : Option String → ℕ → String → ShellState
mount stored w path = record {
  user_collapsed = stored_flag stored;
  mobile_open = false;
  mode = compute_viewport_mode w;
  inner_width = w;
  stored = some (bool_text (stored_flag stored));
  path = path;
}

pub data ShellEvent : Type 0 where
  resize : ℕ → ShellEvent
  -- the button at the foot of the sidebar
  collapse : ShellEvent
  -- the buttons and the backdrop of the drawer
  open_menu close_menu : ShellEvent
  -- a link of the sidebar, or another change of the route
  navigate : String → ShellEvent

-- `{!isMobile && !autoCollapsed && ...}`: whether the button that collapses is there.
unfoldable pub can_collapse : ShellState → Bool
can_collapse s = not (is_mobile s.mode) && not (is_compact s.mode)

-- The button that opens the drawer is in the bar of narrow windows, and those that close it are in the
-- drawer.
unfoldable pub on_click : ShellState → ShellEvent → ShellState
unfolding can_collapse on_resize
on_click s (resize w) = record s { mode = on_resize s.inner_width w s.mode; inner_width = w }
on_click s collapse =
    if can_collapse s then record s { user_collapsed = not s.user_collapsed } else s
on_click s open_menu = if is_mobile s.mode then record s { mobile_open = true } else s
on_click s close_menu = if is_mobile s.mode then record s { mobile_open = false } else s
on_click s (navigate path) = record s { path = path }

-- The effects of a render, on [isMobile], [userCollapsed] and [pathname].
unfoldable pub effects : ShellState → ShellState → ShellState
effects old s =
    let left_mobile = is_mobile old.mode && not (is_mobile s.mode) in
    let new_path = not (str_eq old.path s.path) in
    record s {
      mobile_open = if left_mobile || new_path then false else s.mobile_open;
      stored =
          if differ old.user_collapsed s.user_collapsed
          then some (bool_text s.user_collapsed)
          else s.stored;
    }

unfoldable pub on_shell : ShellState → ShellEvent → ShellState
unfolding on_click effects
on_shell s e = effects s (on_click s e)

unfoldable pub run_shell : ShellState → List ShellEvent → ShellState
unfolding on_shell
run_shell s [] = s
run_shell s (e ∷ es) = run_shell (on_shell s e) es

-- What is shown.
unfoldable pub is_collapsed : ShellState → Bool
is_collapsed s = if is_compact s.mode then true else s.user_collapsed

unfoldable pub sidebar_width : ShellState → ℕ
unfolding is_collapsed
sidebar_width s = if is_mobile s.mode then 240 else if is_collapsed s then 60 else 240

unfoldable pub main_margin : ShellState → ℕ
unfolding is_collapsed
main_margin s = if is_mobile s.mode then 0 else if is_collapsed s then 60 else 240

unfoldable pub is_slid_out : ShellState → Bool
is_slid_out s = is_mobile s.mode && not s.mobile_open

unfoldable pub has_backdrop : ShellState → Bool
has_backdrop s = is_mobile s.mode && s.mobile_open

unfoldable pub has_labels : ShellState → Bool
unfolding is_collapsed
has_labels s = not (not (is_mobile s.mode) && is_collapsed s)

-- ErrorBoundary: the error that was caught, if any.
pub data BoundaryEvent : Type 0 where
  throws : String → BoundaryEvent
  -- `resetKey` before and after an update
  update : Option String → Option String → BoundaryEvent
  try_again : BoundaryEvent

abbrev pub same_key : Option String → Option String → Bool
same_key none none = true
same_key (some a) (some b) = str_eq a b
same_key _ _ = false

unfoldable pub on_boundary : Option String → BoundaryEvent → Option String
on_boundary error (throws message) = some message
on_boundary error (update old new) = if same_key old new then error else none
on_boundary error try_again = none

-- Modal: whether it covers the whole window.
unfoldable pub is_phone : ℕ → Bool
is_phone inner_width = leb inner_width 640

-- Pill: its text and its colors.
unfoldable pub pill : Bool → String → String → String × String × String
pill true label_true label_false = (
  label_true, "var(--color-success)", "color-mix(in srgb, var(--color-success) 12%, transparent)",
)
pill false label_true label_false =
    (label_false, "var(--color-text-muted)", "var(--color-bg-subtle)")
