-- ===== src/Cleanup/History.antt =====
-- web/ui/src/pages/system/CleanupHistory.tsx, and the notices of Diagnostics.tsx with the undo of a
-- soft cleanup.
use haul.Base.{
  ℕ, max, Bool, true, false, Option, none, some, List, [], ◌∷◌, length, map, keep, ltb, ◌==◌,
  String, ◌<>◌, truthy, show_nat, first_chars, code_units, ℤ, pos, negsuc, if◌then◌else◌,
}
use haul.Api.Types.{null, Request, post, Key, part, Mutation}
use haul.Api.Admin.{CleanupMode, soft, hard, use_purge_cleanup_history}

pub data Toast : Type 0 where
  success warning error : String → Toast

abbrev pub plural : ℕ → String
plural n = if n == 1 then "" else "s"

-- The reply to a cleanup.
pub record CleanupResult : Type 0 where
  pub rows_deleted : ℕ
  pub history_entry_ids : Option (List ℕ)

abbrev pub history_ids : CleanupResult → List ℕ
history_ids r = elim r.history_entry_ids [ none ↦ [] | some ids ↦ ids ]

-- The `onSuccess` of a cleanup: its notice, and the ids that its Undo button restores, if it has one.
unfoldable pub cleaned_toast : CleanupMode → CleanupResult → Toast × Option (List ℕ)
cleaned_toast hard r = (
  success ("Permanently deleted " <> show_nat r.rows_deleted <> " row" <> plural r.rows_deleted),
  none,
)
cleaned_toast soft r = (
  success (
      "Moved "
      <> show_nat r.rows_deleted
      <> " row"
      <> plural r.rows_deleted
      <> " to cleanup history"),
  if ltb 0 (length (history_ids r)) then some (history_ids r) else none,
)

-- What a request to restore a row comes to: no reply, or whether the row was restored.
abbrev pub was_restored : Option Bool → Bool
was_restored none = false
was_restored (some restored) = restored

abbrev pub restore_request : ℕ → Request
restore_request id = record {
  method = post;
  path = "/admin/cleanup-history/" <> show_nat id <> "/restore";
  body = none;
}

-- `undoSoftCleanup`: the requests, the keys that it makes stale, and the notice for the results.
pub record Undo : Type 0 where
  pub requests : List Request
  pub stale : List Key
  pub toast : Toast

abbrev pub restored_count : (ℕ → Option Bool) → List ℕ → ℕ
restored_count reply ids = length (keep was_restored (map reply ids))

abbrev pub undo_toast : ℕ → ℕ → Toast
undo_toast ok total =
    if ok == total
    then success ("Restored " <> show_nat ok <> " row" <> plural ok)
    else warning (
        "Restored "
        <> show_nat ok
        <> " of "
        <> show_nat total
        <> " rows (others may already exist)")

unfoldable pub undo_soft_cleanup : (ℕ → Option Bool) → List ℕ → Undo
undo_soft_cleanup reply ids = record {
  requests = map restore_request ids;
  stale =
      (part "admin" ∷ part "diagnostics" ∷ [])
      ∷ (part "admin" ∷ part "cleanup-history" ∷ [])
      ∷ (part "torrents" ∷ [])
      ∷ [];
  toast = undo_toast (restored_count reply ids) (length ids);
}

-- The page of the cleanup history. A number of days is none for NaN.
abbrev pub default_days : Option ℕ
default_days = some 30

-- `Math.max(1, n)`
abbrev pub at_least_one : ℤ → ℕ
at_least_one (pos n) = max 1 n
at_least_one (negsuc n) = 1

-- `parse_int` is `parseInt` in base 10; the browser gives the text of a number field.
unfoldable pub purge_days : (String → Option ℤ) → String → Option ℕ
purge_days parse_int value =
    let text = if truthy value then value else "1" in
    elim (parse_int text) [ none ↦ none | some n ↦ some (at_least_one n) ]

-- `JSON.stringify` writes NaN as null.
unfoldable pub purge : Option ℕ → Mutation
purge (some days) = use_purge_cleanup_history days
purge none =
    let m = use_purge_cleanup_history 0 in
    record m { request = record m.request { body = some (("older_than_days", null) ∷ []) } }

unfoldable pub purged_toast : ℕ → Toast
purged_toast n =
    success ("Permanently deleted " <> show_nat n <> " cleanup_history row" <> plural n)

-- The notice for the reply to a Restore button, with the reason of the server, if it gives one.
unfoldable pub restored_toast : Bool → Option String → Toast
restored_toast true reason = success "Restored"
restored_toast false none = warning "Could not restore"
restored_toast false (some reason) = warning reason

unfoldable pub history_text : Option ℕ → String
history_text none = "No soft-deleted rows. Cleanups from the diagnostics tab will appear here."
history_text (some n) =
    if ltb 0 n
    then show_nat n <> " soft-deleted row" <> plural n <> " within retention."
    else "No soft-deleted rows. Cleanups from the diagnostics tab will appear here."

-- A key of more than 16 code units is cut to 12 of them.
unfoldable pub pk_preview : String → String
pk_preview source_pk =
    if ltb 16 (length (code_units source_pk)) then first_chars 12 source_pk <> "…" else source_pk

-- `restore.isPending && restore.variables === e.id`
unfoldable pub row_loading : Option ℕ → ℕ → Bool
row_loading none id = false
row_loading (some restoring) id = restoring == id

pub record HistoryEntry : Type 0 where
  pub id : ℕ
  pub diagnostic : String
  pub source_table : String
  pub source_pk : String
  pub deleted_at : String

-- A row: the cells from left to right, the text of its button, and whether that is disabled.
pub record Row : Type 0 where
  pub cells : List String
  pub button : String
  pub disabled : Bool

-- `local_time` is `new Date(...).toLocaleString()`.
unfoldable pub history_row : (String → String) → Option ℕ → HistoryEntry → Row
unfolding pk_preview row_loading
history_row local_time restoring e =
    let loading = row_loading restoring e.id in
    record {
      cells = local_time e.deleted_at ∷ e.diagnostic ∷ e.source_table ∷ pk_preview e.source_pk ∷ [];
      button = if loading then "…" else "Restore";
      disabled = loading;
    }

pub data HistoryPage : Type 0 where
  history_loading history_failed : HistoryPage
  history : String → List Row → HistoryPage

-- `useCleanupHistory`: a first load, an error, or the entries, if there are any.
pub data Entries : Type 0 where
  is_loading failed : Entries
  fetched : Option (List HistoryEntry) → Entries

abbrev entries_of : Option (List HistoryEntry) → List HistoryEntry
entries_of none = []
entries_of (some es) = es

unfoldable pub history_page : (String → String) → Option ℕ → Entries → HistoryPage
unfolding history_text history_row
history_page local_time restoring is_loading = history_loading
history_page local_time restoring failed = history_failed
history_page local_time restoring (fetched entries) =
    let es = entries_of entries in
    history (history_text (some (length es))) (map (history_row local_time restoring) es)

-- The button of the purge.
unfoldable pub purge_button : Bool → String
purge_button pending = if pending then "Purging…" else "Purge now"
