-- ===== src/Upload/Laws.antt =====
-- The add dialog (AddModal of web/ui/src/pages/torrents/TorrentList.tsx) over every sequence of
-- its events.
use haul.Base.{
  none≢some, some-injective, ◌≡◌, refl, sym, ◌∙◌, ap, inl, inr, Option-cases, arith, Bool, true,
  false, List, [], ◌∷◌, ◌⊎◌, none, some, String, truthy,
}
use haul.Upload.{
  Browser, File, Valid, valid, invalid, Modal, clear_file, handle_picked_file, handle_drop,
  handle_add, finish_read, can_submit, Step, typed, picked, dropped, cleared, finished, Reachable,
  start, after, ok, error, validate_torrent_file, read_file,
}

Valid-cases : (v : Valid) → (v ≡ valid) ⊎ ((e : String) × (v ≡ invalid e))
Valid-cases valid = inl refl
Valid-cases (invalid e) = inr (e, refl)

-- A chosen file has passed the validation, and no link stands beside it.
pub Sound : Browser → Modal → Type 0
Sound js m = (f : File) → m.file ≡ some f → (validate_torrent_file js f ≡ valid) × (m.uri ≡ "")

handle_picked_file-valid :
    (js : Browser) (f : File) (m : Modal)
    → validate_torrent_file js f ≡ valid
    → handle_picked_file js f m ≡ record { uri = ""; file = some f; file_error = none }
unfolding handle_picked_file
handle_picked_file-valid js f m v = rw (v, handle_picked_file)

handle_picked_file-invalid :
    (js : Browser) (f : File) (m : Modal) (e : String)
    → validate_torrent_file js f ≡ invalid e
    → handle_picked_file js f m ≡ record { uri = m.uri; file = none; file_error = some e }
unfolding handle_picked_file
handle_picked_file-invalid js f m e v = rw (v, handle_picked_file)

handle_picked_file-Sound :
    (js : Browser) (f : File) (m : Modal) → Sound js (handle_picked_file js f m)
unfolding Sound
handle_picked_file-Sound js f m g h = elim (Valid-cases (validate_torrent_file js f)) [
  | inl v ↦
      let p = handle_picked_file-valid js f m v in
      let q : f ≡ g = some-injective (sym (ap (λ (x : Modal). x.file) p) ∙ h) in
      (ap (validate_torrent_file js) (sym q) ∙ v, ap (λ (x : Modal). x.uri) p)
  | inr (e, v) ↦
      let p = handle_picked_file-invalid js f m e v in
      absurd (none≢some (sym (ap (λ (x : Modal). x.file) p) ∙ h))
]

Step-Sound : (js : Browser) {m m' : Modal} → Step js m m' → Sound js m → Sound js m'
unfolding Sound handle_drop clear_file finish_read
Step-Sound js (typed m uri none_chosen) s = λ f h. absurd (none≢some (sym none_chosen ∙ h))
Step-Sound js (picked m f) s = handle_picked_file-Sound js f m
Step-Sound js (dropped m none) s = s
Step-Sound js (dropped m (some f)) s = handle_picked_file-Sound js f m
Step-Sound js (cleared m g e n) s = λ f h. absurd (none≢some h)
Step-Sound js (finished m (ok u)) s = s
Step-Sound js (finished m (error e)) s = s

run-Sound : (js : Browser) {m : Modal} → Reachable js m → Sound js m
unfolding Sound
run-Sound js start = λ f h. absurd (none≢some h)
run-Sound js (after m m' r step) = Step-Sound js step (run-Sound js r)

-- Whatever is typed, picked, dropped, removed or read, a file that is chosen has passed the
-- validation, and the link is empty then: the two are never submitted against each other.
pub Reachable-Sound :
    (js : Browser) (m : Modal) (f : File)
    → Reachable js m
    → m.file ≡ some f
    → (validate_torrent_file js f ≡ valid) × (m.uri ≡ "") × (handle_add js m ≡ read_file f)
unfolding Sound handle_add
Reachable-Sound js m f r h = let s = run-Sound js r f h in (s.0, s.1, rw h)

abbrev pub type_all : List String → Modal → Modal
type_all [] m = m
type_all (uri ∷ uris) m = type_all uris (record m { uri = uri })

type_all-file_error : (uris : List String) (m : Modal) → (type_all uris m).file_error ≡ m.file_error
type_all-file_error [] m = refl
type_all-file_error (uri ∷ uris) m = type_all-file_error uris (record m { uri = uri })

-- No state with an error can be submitted.
can_submit-error :
    (js : Browser) (pending : Bool) (m : Modal) (message : String)
    → m.file_error ≡ some message
    → truthy message ≡ true
    → can_submit js pending m ≡ false
unfolding can_submit
can_submit-error js pending m message e t = elim (Option-cases m.file) [
  | inl p ↦ ground arith
  | inr (f, p) ↦ ground arith
]

-- After a file that fails the validation with a message was picked, no link that is typed can be
-- submitted: the error stays.
pub can_submit-handle_picked_file :
    (js : Browser) (f : File) (uris : List String) (m : Modal) (message : String)
    → validate_torrent_file js f ≡ invalid message
    → truthy message ≡ true
    → (pending : Bool) → can_submit js pending (type_all uris (handle_picked_file js f m)) ≡ false
can_submit-handle_picked_file js f uris m message v t pending =
    can_submit-error js pending _ message
      (type_all-file_error uris _
        ∙ ap (λ (x : Modal). x.file_error) (handle_picked_file-invalid js f m message v))
      t
