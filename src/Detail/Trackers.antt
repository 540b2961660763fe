-- ===== src/Detail/Trackers.antt =====
-- web/ui/src/components/torrent/TrackerList.tsx and TrackerInfo of web/ui/src/api/torrents.ts: the
-- rows of the trackers, with their copy buttons, and the form that adds trackers.
use Prim.Native.Char.{Char, code}
use haul.Base.{
  ℕ, ◌+◌, Bool, true, false, not, ◌||◌, ◌==◌, leb, ◌&&◌, Option, none, some, List, [], ◌∷◌, length,
  keep, map, String, ◌<>◌, truthy, str_eq, show_nat, if◌then◌else◌,
}
use haul.Api.Types.{Mutation}
use haul.Api.Torrents.{use_add_trackers}
use haul.Detail.{Toast, success, error}

pub record TrackerInfo : Type 0 where
  pub tier : ℕ
  pub url : String

-- The white space that `trim` removes.
abbrev pub is_space : Char → Bool
is_space c =
    let n = code c in
    (leb 9 n && leb n 13)
    || n == 32
    || n == 160
    || n == 5760
    || (leb 8192 n && leb n 8202)
    || n == 8232
    || n == 8233
    || n == 8239
    || n == 8287
    || n == 12288
    || n == 65279

unfoldable pub trim_start : String → String
trim_start String.[] = ""
trim_start (String.◌∷◌ c s) = let rest = trim_start s in if is_space c then rest else String.◌∷◌ c s

unfoldable pub trim_end : String → String
trim_end String.[] = ""
trim_end (String.◌∷◌ c s) =
    let rest = trim_end s in if is_space c && str_eq rest "" then "" else String.◌∷◌ c rest

unfoldable pub trim : String → String
trim s = trim_end (trim_start s)

-- A character put before the first line.
unfoldable pub in_first : Char → List String → List String
in_first c [] = String.◌∷◌ c "" ∷ []
in_first c (l ∷ ls) = String.◌∷◌ c l ∷ ls

-- `text.split(/\n/)`
unfoldable pub split_lines : String → List String
unfolding in_first
split_lines String.[] = "" ∷ []
split_lines (String.◌∷◌ c s) =
    let rest = split_lines s in if code c == 10 then "" ∷ rest else in_first c rest

unfoldable pub tracker_urls : String → List String
tracker_urls text = keep truthy (map trim (split_lines text))

-- The form that adds trackers, the list that a request under way adds, and the notices.
pub record AddForm : Type 0 where
  pub is_open : Bool
  pub text : String
  pub pending : Option (List String)
  pub toasts : List Toast

abbrev pub closed_form : AddForm
closed_form = record { is_open = false; text = ""; pending = none; toasts = [] }

unfoldable pub is_pending : AddForm → Bool
is_pending f = elim f.pending [ none ↦ false | some urls ↦ true ]

unfoldable pub add_disabled : AddForm → Bool
add_disabled f = is_pending f || not (truthy (trim f.text))

-- `handleAdd`: what is sent, if anything.
unfoldable pub send_urls : String → AddForm → List String → AddForm × Option Mutation
send_urls hash f [] = (f, none)
send_urls hash f (u ∷ us) =
    (record f { pending = some (u ∷ us) }, some (use_add_trackers hash (u ∷ us)))

unfoldable pub handle_add : String → AddForm → AddForm × Option Mutation
unfolding send_urls
handle_add hash f = send_urls hash f (tracker_urls f.text)

abbrev pub added_message : ℕ → String
added_message n = "Added " <> show_nat n <> " tracker" <> (if n == 1 then "" else "s")

pub data AddEvent : Type 0 where
  open_form cancel click_add added : AddEvent
  type_text rejected : String → AddEvent

-- The reply to a request under way.
unfoldable pub on_added : Option (List String) → AddForm → AddForm
on_added none f = f
on_added (some urls) f = record f {
  is_open = false;
  text = "";
  pending = none;
  toasts = success (added_message (length urls)) ∷ f.toasts;
}

unfoldable pub on_rejected : Option (List String) → String → AddForm → AddForm
on_rejected none message f = f
on_rejected (some urls) message f = record f { pending = none; toasts = error message ∷ f.toasts }

-- What a user can do depends on whether the form is open; a disabled button does nothing.
unfoldable pub on_add : String → AddForm → AddEvent → AddForm
unfolding on_added on_rejected
on_add hash f open_form = record f { is_open = true }
on_add hash f cancel = record f { is_open = false; text = "" }
on_add hash f (type_text s) = if f.is_open then record f { text = s } else f
on_add hash f click_add = if f.is_open && not (add_disabled f) then (handle_add hash f).0 else f
on_add hash f added = on_added f.pending f
on_add hash f (rejected message) = on_rejected f.pending message f

-- A row: whether its URL was just copied, whether the pointer is on it, and the timeouts that wait,
-- by the time when each is due.
pub record Row : Type 0 where
  pub copied : Bool
  pub hovered : Bool
  pub timers : List ℕ

pub data RowEvent : Type 0 where
  enter leave : RowEvent
  copy_done : ℕ → RowEvent
  copy_failed : RowEvent
  timeout : ℕ → RowEvent

-- The first timeout that is due at a time.
unfoldable pub without_timer : ℕ → List ℕ → Option (List ℕ)
without_timer due [] = none
without_timer due (t ∷ ts) =
    let rest = without_timer due ts in
    if t == due then some ts else elim rest [ none ↦ none | some us ↦ some (t ∷ us) ]

unfoldable pub fire : Option (List ℕ) → Row → Row
fire none r = r
fire (some ts) r = record r { copied = false; timers = ts }

unfoldable pub on_row : Row → RowEvent → Row
unfolding without_timer fire
on_row r enter = record r { hovered = true }
on_row r leave = record r { hovered = false }
on_row r (copy_done now) = record r { copied = true; timers = (now + 1500) ∷ r.timers }
on_row r copy_failed = r
on_row r (timeout due) = fire (without_timer due r.timers) r
