-- ===== src/Confirm/Tests.antt =====
-- The confirm dialog asked twice before it is answered.
use haul.Base.{◌≤◌, ◌<◌, ◌≡◌, refl, true, none, some, []}
use haul.Confirm.{
  Dialog, ConfirmOptions, no_dialog, confirm, close, times, asked, answered, Runs, done, more,
  label,
}
use haul.Confirm.Laws.{Runs-once, times-confirm}

abbrev remove : ConfirmOptions
remove = record { title = "Remove"; message = "Sure?"; confirm_label = none; danger = none }

abbrev recheck : ConfirmOptions
recheck = record {
  title = "Recheck";
  message = "Sure?";
  confirm_label = some "Recheck";
  danger = none;
}

abbrev once_asked : Dialog
once_asked = record { opts = some remove; resolver = some 0; resolved = []; promises = 1 }

label-remove : label once_asked ≡ "Delete"
unfolding label
label-remove = refl

once_asked-Runs : Runs no_dialog once_asked
unfolding confirm
once_asked-Runs = more no_dialog no_dialog once_asked (done no_dialog) (asked no_dialog remove)

Runs-once_example :
    (times 0 once_asked.resolved ≤ 1)
    × (once_asked.resolver ≡ some 0 → (times 0 once_asked.resolved ≡ 0) × (0 < once_asked.promises))
Runs-once_example = Runs-once 0 once_asked once_asked-Runs

answered_again : Runs (confirm recheck once_asked) (close true (confirm recheck once_asked))
unfolding confirm
answered_again =
    more (confirm recheck once_asked) (confirm recheck once_asked) _ (done _)
      (answered (confirm recheck once_asked) recheck true refl)

times-confirm_example : times 0 (close true (confirm recheck once_asked)).resolved ≡ 0
times-confirm_example =
    times-confirm once_asked (close true (confirm recheck once_asked)) recheck 0 once_asked-Runs
      refl answered_again
