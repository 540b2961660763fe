-- ===== src/Detail.antt =====
-- web/ui/src/pages/torrents/TorrentDetail.tsx and components/torrent/CollapsibleSection.tsx: the page
-- of one torrent. A progress is a number of equal parts, `one` of which make up 1.
use haul.Base.{
  ℕ, ◌+◌, ◌*◌, Bool, true, false, not, ◌&&◌, Option, none, some, List, [], ◌∷◌, String, ◌<>◌,
  show_nat, ltb, min, str_eq, truthy, if◌then◌else◌,
}
use haul.Torrents.{TorrentInfo, torrent_visual}
use haul.Api.Types.{Mutation}
use haul.Api.Torrents.{use_pause_torrent, use_resume_torrent, use_delete_torrent}
use haul.Confirm.{ConfirmOptions}
use haul.Formats.{Logarithm, format_bytes, format_speed}
mod Peers
pub mod Trackers
mod Stall
mod View
mod Tables
mod Laws
mod Adding
mod Tests

-- A section: its state, and what happens to it. A render may pass another `defaultOpen`.
pub data SectionEvent : Type 0 where
  render : Bool → SectionEvent
  click : SectionEvent

-- `useState(defaultOpen)`
abbrev pub mount_section : Bool → Bool
mount_section default_open = default_open

unfoldable pub on_section : Bool → SectionEvent → Bool
on_section is_open (render default_open) = is_open
on_section is_open click = not is_open

unfoldable pub run_section : Bool → List SectionEvent → Bool
unfolding on_section
run_section is_open [] = is_open
run_section is_open (e ∷ es) = run_section (on_section is_open e) es

pub record SectionProps : Type 0 where
  pub label : String
  pub count : Option String
  pub default_open : Bool

-- The three sections. `num_pieces` is absent while the pieces are not loaded, and `to_locale` is
-- `toLocaleString`.
abbrev pub pieces_section : (ℕ → String) → ℕ → ℕ → TorrentInfo → SectionProps
pieces_section to_locale one num_pieces t = record {
  label = "Pieces";
  count = if ltb 0 num_pieces then some (to_locale num_pieces) else none;
  default_open = ltb t.progress one;
}

unfoldable pub sections : (ℕ → String) → ℕ → Option ℕ → ℕ → ℕ → TorrentInfo → List SectionProps
sections to_locale one num_pieces peers trackers t =
    let others =
      record { label = "Peers"; count = some (show_nat peers); default_open = true }
      ∷ record { label = "Trackers"; count = some (show_nat trackers); default_open = false }
      ∷ [] in
    elim num_pieces [ none ↦ others | some n ↦ pieces_section to_locale one n t ∷ others ]

pub record Fact : Type 0 where
  pub label : String
  pub value : String
  pub color : Option String

abbrev pub plain : String → String → Fact
plain label value = record { label = label; value = value; color = none }

-- `ratio` is `toFixed(2)`, and `percent` is `(progress * 100).toFixed(1)`.
unfoldable pub facts : Logarithm → (ℕ → String) → (ℕ → String) → TorrentInfo → List Fact
facts js ratio percent t =
    let visual = torrent_visual t in
    record { label = "Status"; value = visual.label; color = some visual.color }
    ∷ plain "Size" (format_bytes js t.size)
    ∷ plain "Downloaded" (format_bytes js t.downloaded)
    ∷ plain "Uploaded" (format_bytes js t.uploaded)
    ∷ plain "Down Speed" (format_speed js t.download_rate)
    ∷ plain "Up Speed" (format_speed js t.upload_rate)
    ∷ plain "Seeds" (show_nat t.seeds)
    ∷ plain "Peers" (show_nat t.peers)
    ∷ plain "Ratio" (ratio t.seed_ratio)
    ∷ plain "Progress" (percent t.progress <> "%")
    ∷ []

-- What the page shows: `isLoading`, no torrent, or the torrent.
pub data Page : Type 0 where
  loading not_found : Page
  shown : TorrentInfo → Page

unfoldable pub page : Bool → Option TorrentInfo → Page
page true t = loading
page false none = not_found
page false (some t) = shown t

-- The button beside Delete: its text and what it does.
unfoldable pub primary_button : TorrentInfo → String × Mutation
primary_button t =
    if str_eq t.status "paused"
    then ("Resume", use_resume_torrent t.info_hash)
    else ("Pause", use_pause_torrent t.info_hash)

abbrev pub delete_options : TorrentInfo → ConfirmOptions
delete_options t = record {
  title = "Delete torrent and files";
  message = "Delete \"" <> t.name <> "\" AND its downloaded files on disk? This cannot be undone.";
  confirm_label = some "Delete everything";
  danger = none;
}

-- `handleDelete`: the question it asks, and what it sends for an answer.
unfoldable pub handle_delete :
    Option TorrentInfo → Option (ConfirmOptions × (Bool → Option Mutation))
handle_delete none = none
handle_delete (some t) =
    some (delete_options t, λ yes. if yes then some (use_delete_torrent t.info_hash true) else none)

-- `encode` is `encodeURIComponent`.
unfoldable pub build_magnet : (String → String) → String → String → String
build_magnet encode info_hash name = "magnet:?xt=urn:btih:" <> info_hash <> "&dn=" <> encode name

-- What the browser does: `write_text` gives the message of its error or nothing, and `exec_copy` tells
-- whether `execCommand("copy")` copied.
pub record Clipboard : Type 0 where
  pub has_clipboard : Bool
  pub is_secure : Bool
  pub write_text : String → Option String
  pub exec_copy : String → Bool

pub data Toast : Type 0 where
  success error : String → Toast

-- The notice, and whether the text is on the clipboard.
unfoldable pub copy_to_clipboard : Clipboard → String → String → Toast × Bool
copy_to_clipboard c text success_message =
    if c.has_clipboard && c.is_secure
    then elim (c.write_text text) [
      | none ↦ (success success_message, true)
      | some message ↦ (error ("Couldn't copy to clipboard: " <> message), false)
    ]
    else (success success_message, c.exec_copy text)

-- The badge of a file's priority: its background and its color.
unfoldable pub priority_style : String → String × String
priority_style priority =
    if str_eq priority "skip"
    then ("var(--color-bg-subtle)", "var(--color-text-muted)")
    else if str_eq priority "high"
    then ("color-mix(in srgb, var(--color-warning) 15%, transparent)", "var(--color-warning)")
    else ("color-mix(in srgb, var(--color-success) 15%, transparent)", "var(--color-success)")

-- The width of the bar under the header, in hundredths of `one`.
unfoldable pub bar_width : ℕ → TorrentInfo → ℕ
bar_width one t = min (t.progress * 100) (one * 100)
