-- ===== src/Formats.antt =====
-- How sizes, speeds and times are shown: web/ui/src/shared/utils.ts, web/ui/src/lib/format.ts, and
-- the local functions of TorrentList.tsx and StallCallout.tsx. Sizes and speeds are whole bytes; a
-- number below 0, which the code shows as "0 B" or "-", counts as 0.
use haul.Base.{
  ℕ, suc, ◌+◌, ◌-◌, ◌*◌, ◌/◌, ◌%◌, ◌^◌, ◌≤◌, ◌≡◌, Bool, true, false, Option, none, some, List, [],
  ◌∷◌, get_elem?, ltb, leb, ◌==◌, if◌then◌else◌, String, ◌<>◌, show_nat, ℤ, pos, negsuc, sub_ℕ,
  ltb_ℤ,
}
mod Laws
mod Tests

-- `Math.floor(Math.log(n) / Math.log(1024))`, and the number of units of 1024 ^ i that n bytes are,
-- as `parseFloat((n / Math.pow(1024, i)).toFixed(1))` writes it.
pub record Logarithm : Type 0 where
  pub floor_log : ℕ → ℕ
  pub amount : ℕ → ℕ → String
  pub floor_log-pow : (k : ℕ) → k ≤ 5 → floor_log (1024 ^ k) ≡ k
  pub floor_log_mono : (m n : ℕ) → m ≤ n → floor_log m ≤ floor_log n

abbrev pub sizes : List String
sizes = "B" ∷ "KB" ∷ "MB" ∷ "GB" ∷ "TB" ∷ []

-- `${sizes[i]}`: past the end it reads "undefined".
abbrev pub unit : ℕ → String
unit i = elim (get_elem? sizes i) [ none ↦ "undefined" | some s ↦ s ]

module _ (js : Logarithm) where
  unfoldable pub format_bytes : ℕ → String
  format_bytes bytes =
      if bytes == 0
      then "0 B"
      else js.amount bytes (js.floor_log bytes) <> " " <> unit (js.floor_log bytes)

  unfoldable pub format_speed : ℕ → String
  unfolding format_bytes
  format_speed bytes_per_sec =
      if bytes_per_sec == 0 then "0 B/s" else format_bytes bytes_per_sec <> "/s"

-- TorrentList.tsx
unfoldable pub format_eta : ℕ → String
format_eta secs =
    if secs == 0
    then "-"
    else if ltb secs 60
    then show_nat secs <> "s"
    else if ltb secs 3600
    then show_nat (secs / 60) <> "m"
    else show_nat (secs / 3600) <> "h " <> show_nat (secs % 3600 / 60) <> "m"

-- `Math.floor(ms / 1000)` of a difference of times.
abbrev pub floor_seconds : ℤ → ℤ
floor_seconds (pos ms) = pos (ms / 1000)
floor_seconds (negsuc ms) = negsuc (ms / 1000)

abbrev pub show_negative : ℕ → String
show_negative n = "-" <> show_nat (suc n)

-- The seconds since the torrent was added, none for a time that cannot be read (NaN).
unfoldable pub show_active : Option ℤ → String
show_active none = "NaNd NaNh"
show_active (some (negsuc n)) = show_negative n <> "s"
show_active (some (pos diff)) =
    if ltb diff 60
    then show_nat diff <> "s"
    else if ltb diff 3600
    then show_nat (diff / 60) <> "m"
    else if ltb diff 86400
    then show_nat (diff / 3600) <> "h " <> show_nat (diff % 3600 / 60) <> "m"
    else show_nat (diff / 86400) <> "d " <> show_nat (diff % 86400 / 3600) <> "h"

-- `get_time` is `new Date(s).getTime()`, and `now` is `Date.now()`.
abbrev pub seconds_since : (String → Option ℕ) → ℕ → String → Option ℤ
seconds_since get_time now time = elim (get_time time) [
  | none ↦ none
  | some t ↦ some (floor_seconds (sub_ℕ now t))
]

unfoldable pub format_time_active : (String → Option ℕ) → ℕ → String → String
unfolding show_active
format_time_active get_time now added_at = show_active (seconds_since get_time now added_at)

-- shared/utils.ts
unfoldable pub show_ago : Option ℤ → String
show_ago none = "NaNd ago"
show_ago (some (negsuc n)) = "just now"
show_ago (some (pos seconds)) =
    let minutes = seconds / 60 in
    let hours = minutes / 60 in
    if ltb seconds 60
    then "just now"
    else if ltb minutes 60
    then show_nat minutes <> "m ago"
    else if ltb hours 24
    then show_nat hours <> "h ago"
    else show_nat (hours / 24) <> "d ago"

unfoldable pub time_ago : (String → Option ℕ) → ℕ → String → String
unfolding show_ago
time_ago get_time now iso = show_ago (seconds_since get_time now iso)

-- StallCallout.tsx
unfoldable pub format_inactive : ℕ → String
format_inactive secs =
    if ltb secs 60
    then show_nat secs <> "s"
    else if ltb secs 3600
    then (if ltb 0 (secs % 60)
        then show_nat (secs / 60) <> "m " <> show_nat (secs % 60) <> "s"
        else show_nat (secs / 60) <> "m")
    else if ltb 0 (secs % 3600 / 60)
    then show_nat (secs / 3600) <> "h " <> show_nat (secs % 3600 / 60) <> "m"
    else show_nat (secs / 3600) <> "h"
