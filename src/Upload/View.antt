-- ===== src/Upload/View.antt =====
-- What AddModal of web/ui/src/pages/torrents/TorrentList.tsx shows.
use haul.Base.{Bool, true, false, not, Option, none, some, String, truthy?, if◌then◌else◌}
use haul.Upload.{Browser, Modal, can_submit, format_torrent_file_bytes}

-- The text field, which is disabled while a file is chosen.
pub record UriField : Type 0 where
  pub value : String
  pub disabled : Bool
  pub background : String
  pub color : String

abbrev pub has_file : Modal → Bool
has_file m = elim m.file [ none ↦ false | some f ↦ true ]

unfoldable pub uri_field : Modal → UriField
uri_field m = record {
  value = m.uri;
  disabled = has_file m;
  background = if has_file m then "var(--color-bg-subtle)" else "var(--color-bg-surface)";
  color = if has_file m then "var(--color-text-muted)" else "var(--color-text-primary)";
}

-- The border and the background of the field that files are dropped on, while one is above it or not.
unfoldable pub dropzone : Bool → String × String
dropzone true = ("2px dashed var(--color-accent)", "var(--color-accent-muted)")
dropzone false = ("2px dashed var(--color-border-default)", "var(--color-bg-subtle)")

pub record AddButton : Type 0 where
  pub label : String
  pub disabled : Bool
  pub background : String
  pub color : String

-- The file is shown by its name and size, with a button that removes it.
pub record ModalView : Type 0 where
  pub field : UriField
  pub dropzone : String × String
  pub file : Option (String × String)
  pub failure : Option String
  pub button : AddButton

module _ (js : Browser) where
  unfoldable pub file_line : Modal → Option (String × String)
  file_line m =
      if truthy? m.file_error
      then none
      else elim m.file [ none ↦ none | some f ↦ some (f.name, format_torrent_file_bytes js f.size) ]

  unfoldable pub add_button : Bool → Modal → AddButton
  add_button pending m =
      let ready = can_submit js pending m in
      record {
        label = if pending then "Adding..." else "Add";
        disabled = not ready;
        background = if ready then "var(--color-accent)" else "var(--color-bg-subtle)";
        color = if ready then "var(--color-accent-fg)" else "var(--color-text-muted)";
      }

  unfoldable pub modal_view : Bool → Bool → Modal → ModalView
  unfolding uri_field dropzone file_line add_button
  modal_view drag_over pending m = record {
    field = uri_field m;
    dropzone = dropzone drag_over;
    file = file_line m;
    failure = if truthy? m.file_error then m.file_error else none;
    button = add_button pending m;
  }
