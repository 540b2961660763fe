-- ===== src/Upload.antt =====
-- web/ui/src/pages/torrents/torrentFile.ts, and the state of AddModal of TorrentList.tsx. A binary
-- string is the list of its code units. Reading a file gives its bytes; the size that the browser
-- reports beforehand is a field of its own.
use haul.Base.{
  ℕ, zero, suc, ◌+◌, ◌*◌, ◌≡◌, Bool, true, false, not, ◌&&◌, ◌||◌, Option, none, some, List, [],
  ◌∷◌, ◌++◌, length, take, drop, ltb, ◌==◌, if◌then◌else◌, String, ◌<>◌, truthy, truthy?, show_nat,
}
use haul.Api.Torrents.{AddBody}
mod View
mod Laws
mod Encoding
mod Tests

-- The browser: `toLowerCase`, `endsWith`, `trim`, `(n / d).toFixed(1)` and `btoa`.
pub record Browser : Type 0 where
  pub lower : String → String
  pub ends_with : String → String → Bool
  pub trim : String → String
  pub to_fixed : ℕ → ℕ → String
  pub btoa : List ℕ → String

pub record File : Type 0 where
  pub name : String
  pub size : ℕ
  pub bytes : List ℕ

pub data Result (T : Type 0) : Type 0 where
  ok : T → Result T
  error : String → Result T

pub data Valid : Type 0 where
  valid : Valid
  invalid : String → Valid

abbrev pub max_torrent_file_bytes : ℕ
max_torrent_file_bytes = 10 * 1024 * 1024

abbrev pub torrent_data_uri_prefix : String
torrent_data_uri_prefix = "data:application/x-bittorrent;base64,"

abbrev pub chunk_size : ℕ
chunk_size = 32768

-- The loop of `bytesToBase64` from the index i on, with fuel for its rounds.
unfoldable pub binary_from : ℕ → ℕ → List ℕ → List ℕ → List ℕ
binary_from zero i bytes binary = binary
binary_from (suc fuel) i bytes binary =
    let rest = binary_from fuel (i + chunk_size) bytes (binary ++ take chunk_size (drop i bytes)) in
    if ltb i (length bytes) then rest else binary

module _ (js : Browser) where
  unfoldable pub format_torrent_file_bytes : ℕ → String
  format_torrent_file_bytes n =
      if ltb n 1024
      then show_nat n <> " B"
      else if ltb n (1024 * 1024)
      then js.to_fixed n 1024 <> " KB"
      else js.to_fixed n (1024 * 1024) <> " MB"

  unfoldable pub validate_torrent_file : File → Valid
  unfolding format_torrent_file_bytes
  validate_torrent_file file =
      if not (js.ends_with (js.lower file.name) ".torrent")
      then invalid "File must have a .torrent extension"
      else if file.size == 0
      then invalid "File is empty"
      else if ltb max_torrent_file_bytes file.size
      then invalid ("File exceeds " <> format_torrent_file_bytes max_torrent_file_bytes <> " limit")
      else valid

  unfoldable pub bytes_to_base64 : List ℕ → String
  unfolding binary_from
  bytes_to_base64 bytes = js.btoa (binary_from (length bytes) 0 bytes [])

  unfoldable pub read_torrent_file_as_data_uri : File → Result String
  unfolding bytes_to_base64
  read_torrent_file_as_data_uri file = elim file.bytes [
    | [] ↦ error "File is empty"
    | b ∷ bs ↦
        if b == 100
        then ok (torrent_data_uri_prefix <> bytes_to_base64 (b ∷ bs))
        else error "File doesn't look like a torrent (bad magic byte)"
  ]

-- The state of AddModal.
pub record Modal : Type 0 where
  pub uri : String
  pub file : Option File
  pub file_error : Option String

abbrev pub opened : Modal
opened = record { uri = ""; file = none; file_error = none }

unfoldable pub clear_file : Modal → Modal
clear_file m = record m { file = none; file_error = none }

-- What `handleAdd` does: nothing, or reading the file, or sending a link.
pub data Submission : Type 0 where
  nothing : Submission
  read_file : File → Submission
  send : AddBody → Submission

abbrev pub with_uri : String → AddBody
with_uri uri = record { uri = uri; category = none; save_path = none; paused = none }

module _ (js : Browser) where
  unfoldable pub handle_picked_file : File → Modal → Modal
  unfolding validate_torrent_file
  handle_picked_file picked m = elim (validate_torrent_file js picked) [
    | valid ↦ record { uri = ""; file = some picked; file_error = none }
    | invalid e ↦ record { uri = m.uri; file = none; file_error = some e }
  ]

  -- `files?.[0]`: a drop without a file changes nothing.
  unfoldable pub handle_drop : Option File → Modal → Modal
  unfolding handle_picked_file
  handle_drop none m = m
  handle_drop (some dropped) m = handle_picked_file dropped m

  unfoldable pub handle_add : Modal → Submission
  handle_add m = elim m.file [
    | some file ↦ read_file file
    | none ↦ if truthy (js.trim m.uri) then send (with_uri (js.trim m.uri)) else nothing
  ]

  -- The end of the reading that `handleAdd` waits for.
  unfoldable pub finish_read : Result String → Modal → Submission × Modal
  finish_read (ok data_uri) m = (send (with_uri data_uri), m)
  finish_read (error e) m = (nothing, record m { file_error = some e })

  unfoldable pub can_submit : Bool → Modal → Bool
  can_submit pending m =
      (elim m.file [ none ↦ truthy (js.trim m.uri) | some file ↦ true ])
      && not (truthy? m.file_error)
      && not pending

-- A step of the dialog. The text field is disabled while a file is chosen, and the button that
-- removes the file is shown while there is no error.
pub data Step (js : Browser) : Modal → Modal → Type 0 where
  typed : (m : Modal) (uri : String) → m.file ≡ none → Step js m (record m { uri = uri })
  picked : (m : Modal) (f : File) → Step js m (handle_picked_file js f m)
  dropped : (m : Modal) (f : Option File) → Step js m (handle_drop js f m)
  cleared :
      (m : Modal) (f : File)
      → m.file ≡ some f
      → truthy? m.file_error ≡ false
      → Step js m (clear_file m)
  finished : (m : Modal) (r : Result String) → Step js m (finish_read js r m).1

-- The states that the dialog can reach.
pub data Reachable (js : Browser) : Modal → Type 0 where
  start : Reachable js opened
  after : (m m' : Modal) → Reachable js m → Step js m m' → Reachable js m'
