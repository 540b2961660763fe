-- ===== src/Detail/Tests.antt =====
-- The page of a torrent on concrete data.
use haul.Base.{
  ℕ, ◌≡◌, refl, true, false, not, any, none, some, List, [], ◌∷◌, All, String, if◌then◌else◌,
}
use haul.Api.Torrents.{use_add_trackers}
use haul.Detail.{Clipboard, render, click, SectionEvent}
use haul.Detail.Peers.{PeerInfo}
use haul.Detail.Trackers.{
  tracker_urls, split_lines, trim, trim_start, trim_end, in_first, AddForm, add_disabled,
  is_pending, handle_add, enter, copy_done, RowEvent, on_row,
}
use haul.Detail.Adding.{IsLine, join_lines, tracker_urls-join_lines, handle_add_lem}
use haul.Detail.Laws.{run_row, idle_row}

abbrev peer : String → ℕ → PeerInfo
peer addr rate = record {
  addr = addr;
  client = "unknown";
  network = "tcp";
  encrypted = true;
  progress = 5;
  download_rate = rate;
  upload_rate = 0;
  downloaded = 10;
  uploaded = 0;
}

abbrev peers : List PeerInfo
peers = peer "10.0.0.1:1" 3 ∷ peer "10.0.0.2:1" 8 ∷ peer "10.0.0.3:1" 5 ∷ []

abbrev renders : List SectionEvent
renders = render true ∷ click ∷ render false ∷ click ∷ render false ∷ []

-- A browser without the clipboard, which does not copy either.
abbrev old_browser : Clipboard
old_browser = record {
  has_clipboard = false;
  is_secure = false;
  write_text = λ s. none;
  exec_copy = λ s. false;
}

abbrev copied_twice : List RowEvent
copied_twice = enter ∷ copy_done 100 ∷ copy_done 900 ∷ []

abbrev trackers : List String
trackers = "udp://a.example:1337" ∷ "http://b.example/announce" ∷ []

trackers-IsLine : All IsLine trackers
unfolding trim trim_start trim_end
trackers-IsLine = ((refl, refl, refl), ((refl, refl, refl), tt))

tracker_urls-join_lines_example : tracker_urls (join_lines trackers) ≡ trackers
tracker_urls-join_lines_example = tracker_urls-join_lines trackers trackers-IsLine

abbrev typed : AddForm
typed = record { is_open = true; text = " udp://a.example:1337 \n\n"; pending = none; toasts = [] }

not_pending : is_pending typed ≡ false
unfolding is_pending
not_pending = refl

handle_add_example :
    ((handle_add "abc" typed).1 ≡ (
      if add_disabled typed then none else some (use_add_trackers "abc" (tracker_urls typed.text))))
    × (any (λ (u : String). true) (tracker_urls typed.text) ≡ not (add_disabled typed))
handle_add_example = handle_add_lem "abc" typed not_pending

tracker_urls_trimmed : tracker_urls typed.text ≡ "udp://a.example:1337" ∷ []
unfolding tracker_urls split_lines in_first trim trim_start trim_end
tracker_urls_trimmed = refl

is_copied : (run_row idle_row copied_twice).copied ≡ true
unfolding run_row on_row
is_copied = refl
