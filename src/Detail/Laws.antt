-- ===== src/Detail/Laws.antt =====
-- The page of a torrent: its sections, the order of its peers, copying, and the rows of its trackers.
use mathlib.Core.List.{Perm}
use mathlib.Core.List.Perm
use haul.Base.{
  ℕ, ◌+◌, ◌≡◌, refl, ◌∙◌, arith, Bool, true, false, not, ==_refl, ◌&&◌, ◌⊎◌, inl, inr, Option, none,
  some, List, [], ◌∷◌, String, if◌then◌else◌,
}
use haul.Dashboard.Sorting.{Descends, Ascends, sort_by-perm, sort_by-Descends, sort_by-Ascends}
use haul.Detail.{
  SectionEvent, render, click, mount_section, on_section, run_section, Clipboard, Toast, success,
  error, copy_to_clipboard,
}
use haul.Detail.Peers.{
  PeerInfo, PeerField, by_download, by_upload, by_progress, SortDir, ascending, descending,
  PeerSort, field_of, compare_peers, sorted, same_field, next_dir, toggle_sort,
}
use haul.Detail.Trackers.{
  Row, RowEvent, enter, leave, copy_done, copy_failed, timeout, without_timer, fire, on_row,
}

sorted-perm : (peers : List PeerInfo) (s : Option PeerSort) → Perm (sorted peers s) peers
unfolding sorted
sorted-perm peers none = Perm.refl peers
sorted-perm peers (some s) = sort_by-perm (compare_peers s) peers

-- Every sort lists the same peers; by a column they fall or rise with its values, and without a sort they
-- keep the server's order.
pub sorted_lem :
    (peers : List PeerInfo) (f : PeerField) (s : Option PeerSort)
    → Perm (sorted peers s) peers
      × Descends (field_of f) (sorted peers (some (record { field = f; dir = descending })))
      × Ascends (field_of f) (sorted peers (some (record { field = f; dir = ascending })))
      × (sorted peers none ≡ peers)
unfolding sorted compare_peers
sorted_lem peers f s = (
  sorted-perm peers s,
  sort_by-Descends (field_of f) peers,
  sort_by-Ascends (field_of f) peers,
  refl,
)

-- Three clicks on one header.
abbrev pub click_thrice : PeerField → Option PeerSort → Option PeerSort
click_thrice f s = toggle_sort f (toggle_sort f (toggle_sort f s))

-- Three clicks on one header return a table that is unsorted or sorted by that header to the order it
-- had, and leave one that is sorted by another header unsorted.
pub click_thrice_lem :
    (f g : PeerField) (d : SortDir)
    → (click_thrice f none ≡ none)
      × (click_thrice f (some (record { field = g; dir = d }))
          ≡ (if same_field g f then some (record { field = g; dir = d }) else none))
unfolding toggle_sort next_dir same_field
click_thrice_lem by_download by_download ascending = (refl, refl)
click_thrice_lem by_download by_download descending = (refl, refl)
click_thrice_lem by_download by_upload d = (refl, refl)
click_thrice_lem by_download by_progress d = (refl, refl)
click_thrice_lem by_upload by_download d = (refl, refl)
click_thrice_lem by_upload by_upload ascending = (refl, refl)
click_thrice_lem by_upload by_upload descending = (refl, refl)
click_thrice_lem by_upload by_progress d = (refl, refl)
click_thrice_lem by_progress by_download d = (refl, refl)
click_thrice_lem by_progress by_upload d = (refl, refl)
click_thrice_lem by_progress by_progress ascending = (refl, refl)
click_thrice_lem by_progress by_progress descending = (refl, refl)

-- A section is open as it was mounted, changed by each click.
abbrev pub clicks : List SectionEvent → Bool
clicks [] = false
clicks (render b ∷ es) = clicks es
clicks (click ∷ es) = not (clicks es)

abbrev pub xor : Bool → Bool → Bool
xor true b = not b
xor false b = b

xor-not : (a b : Bool) → xor (not a) b ≡ xor a (not b)
xor-not true true = refl
xor-not true false = refl
xor-not false b = refl

xor-false : (a : Bool) → a ≡ xor a false
xor-false true = refl
xor-false false = refl

-- Whatever `defaultOpen` the later renders pass, a section is open as its first render said, or the
-- other way after an odd number of clicks.
pub run_section_lem :
    (default_open : Bool) (es : List SectionEvent)
    → run_section (mount_section default_open) es ≡ xor default_open (clicks es)
unfolding run_section on_section
run_section_lem b [] = xor-false b
run_section_lem b (render c ∷ es) = run_section_lem b es
run_section_lem b (click ∷ es) = run_section_lem (not b) es ∙ xor-not b (clicks es)

abbrev pub is_success : Toast → Bool
is_success (success m) = true
is_success (error m) = false

-- Where the clipboard can be used, success is reported exactly when the text was copied; elsewhere it is
-- reported whether or not the browser copied.
pub copy_to_clipboard_lem :
    (c : Clipboard) (s message : String)
    → is_success (copy_to_clipboard c s message).0
      ≡ (if c.has_clipboard && c.is_secure then (copy_to_clipboard c s message).1 else true)
unfolding copy_to_clipboard
copy_to_clipboard_lem c s message = ground arith

unfoldable pub run_row : Row → List RowEvent → Row
unfolding on_row
run_row r [] = r
run_row r (e ∷ es) = run_row (on_row r e) es

abbrev pub idle_row : Row
idle_row = record { copied = false; hovered = false; timers = [] }

-- A row that shows the sign has a timeout that waits.
abbrev IsWaiting : Row → Type 0
IsWaiting r = (r.copied ≡ false) ⊎ ((t : ℕ) × (ts : List ℕ) × (r.timers ≡ t ∷ ts))

fire-IsWaiting : (o : Option (List ℕ)) (r : Row) → IsWaiting r → IsWaiting (fire o r)
unfolding fire
fire-IsWaiting none r w = w
fire-IsWaiting (some ts) r w = inl refl

on_row-IsWaiting : (r : Row) (e : RowEvent) → IsWaiting r → IsWaiting (on_row r e)
unfolding on_row
on_row-IsWaiting r enter w = w
on_row-IsWaiting r leave w = w
on_row-IsWaiting r (copy_done now) w = inr (now + 1500, r.timers, refl)
on_row-IsWaiting r copy_failed w = w
on_row-IsWaiting r (timeout due) w = fire-IsWaiting (without_timer due r.timers) r w

run_row-IsWaiting : (r : Row) (es : List RowEvent) → IsWaiting r → IsWaiting (run_row r es)
unfolding run_row
run_row-IsWaiting r [] w = w
run_row-IsWaiting r (e ∷ es) w = run_row-IsWaiting (on_row r e) es (on_row-IsWaiting r e w)

timeout_first :
    (r : Row) (t : ℕ) (ts : List ℕ) → r.timers ≡ t ∷ ts → (on_row r (timeout t)).copied ≡ false
unfolding on_row without_timer fire
timeout_first r t ts h = rw (h, ==_refl t) refl

-- Whatever happened to a row, where its URL shows as copied some timeout waits, and the row stops
-- showing it when that timeout is due.
pub run_row-timeout :
    (es : List RowEvent)
    → (run_row idle_row es).copied ≡ true
    → (t : ℕ) × (ts : List ℕ) × ((run_row idle_row es).timers ≡ t ∷ ts)
      × ((on_row (run_row idle_row es) (timeout t)).copied ≡ false)
run_row-timeout es h = elim (run_row-IsWaiting idle_row es (inl refl)) [
  | inl e ↦ absurd cc
  | inr w ↦ (w.0, w.1, w.2, timeout_first (run_row idle_row es) w.0 w.1 w.2)
]
