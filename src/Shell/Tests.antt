-- ===== src/Shell/Tests.antt =====
-- The sidebar on concrete events.
use haul.Base.{none, some, List, [], ◌∷◌}
use haul.Shell.{mount, run_shell, ShellState, ShellEvent, resize, collapse, open_menu, navigate}
use haul.Shell.Laws.{IsSettled, run_shell-mount}

abbrev events : List ShellEvent
events = collapse ∷ resize 500 ∷ open_menu ∷ navigate "/logs" ∷ open_menu ∷ resize 1000 ∷ []

run_shell-mount_example : IsSettled (run_shell (mount none 1400 "/") events)
run_shell-mount_example = run_shell-mount none 1400 "/" events

abbrev narrow : ShellState
narrow = mount (some "true") 500 "/"
