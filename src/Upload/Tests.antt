-- ===== src/Upload/Tests.antt =====
-- The upload of a file at concrete inputs, with a browser that knows a few texts.
use haul.Base.{
  ◌/◌, ◌≡◌, refl, ◌⊎◌, false, none, some, [], ◌∷◌, String, ◌<>◌, length, show_nat, str_eq, not,
}
use haul.Upload.{
  Browser, File, valid, invalid, ok, error, Modal, opened, handle_picked_file, can_submit, typed,
  picked, start, after, validate_torrent_file, read_torrent_file_as_data_uri,
  torrent_data_uri_prefix, handle_add, read_file, format_torrent_file_bytes,
}
use haul.Upload.Encoding.{Bencoded, read_torrent_file_as_data_uri_lem}
use haul.Upload.Laws.{Reachable-Sound, can_submit-handle_picked_file, type_all}

abbrev some_browser : Browser
some_browser = record {
  lower = λ s. s;
  ends_with = λ s t. not (str_eq s "film.mkv");
  trim = λ s. s;
  to_fixed = λ n d. show_nat (n / d);
  btoa = λ bs. show_nat (length bs);
}

abbrev small : File
small = record { name = "a.torrent"; size = 3; bytes = 100 ∷ 49 ∷ 101 ∷ [] }

abbrev film : File
film = record { name = "film.mkv"; size = 3; bytes = 1 ∷ 2 ∷ 3 ∷ [] }

validate-huge :
    validate_torrent_file some_browser record { name = "b.torrent"; size = 10485761; bytes = [] }
    ≡ invalid "File exceeds 10 MB limit"
unfolding validate_torrent_file format_torrent_file_bytes show_nat
validate-huge = refl

read_torrent_file_as_data_uri_example :
    (Bencoded (100 ∷ 49 ∷ 101 ∷ [])
      × (read_torrent_file_as_data_uri some_browser small ≡ ok (torrent_data_uri_prefix <> "3")))
    ⊎ (¬ Bencoded (100 ∷ 49 ∷ 101 ∷ [])
        × (message : String) × (read_torrent_file_as_data_uri some_browser small ≡ error message))
unfolding show_nat
read_torrent_file_as_data_uri_example = read_torrent_file_as_data_uri_lem some_browser small

abbrev with_link : Modal
with_link = record { uri = "magnet:x"; file = none; file_error = none }

abbrev with_file : Modal
with_file = record { uri = ""; file = some small; file_error = none }

Reachable-Sound_example :
    (validate_torrent_file some_browser small ≡ valid)
    × (with_file.uri ≡ "")
    × (handle_add some_browser with_file ≡ read_file small)
unfolding handle_picked_file validate_torrent_file
Reachable-Sound_example =
    Reachable-Sound some_browser with_file small
      (after with_link with_file (after opened with_link start (typed opened "magnet:x" refl))
        (picked with_link small))
      refl

can_submit-handle_picked_file_example :
    can_submit some_browser false
      (type_all ("magnet:x" ∷ []) (handle_picked_file some_browser film opened))
    ≡ false
unfolding validate_torrent_file
can_submit-handle_picked_file_example =
    can_submit-handle_picked_file some_browser film ("magnet:x" ∷ []) opened
      "File must have a .torrent extension" refl refl false
