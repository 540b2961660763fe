-- ===== src/Detail/View.antt =====
-- What web/ui/src/pages/torrents/TorrentDetail.tsx shows around the sections: the header with its
-- buttons, the bar, the category and tags, the paths and the files.
use haul.Base.{
  ℕ, ◌*◌, Bool, Option, none, some, List, [], ◌∷◌, ◌++◌, length, map, String, ◌<>◌, show_nat,
  truthy, if◌then◌else◌,
}
use haul.Torrents.{TorrentInfo, torrent_visual}
use haul.Geometry.{TorrentFile}
use haul.Formats.{Logarithm, format_bytes}
use haul.Detail.{
  Clipboard, Toast, copy_to_clipboard, build_magnet, primary_button, bar_width, Fact, facts,
  SectionProps, sections, priority_style,
}
use haul.Detail.Stall.{StallInfo, Callout, shown_callout}

-- The buttons of the header that copy, and the link that fetches the file of the torrent.
unfoldable pub copy_magnet : (String → String) → Clipboard → TorrentInfo → Toast × Bool
copy_magnet encode c t =
    copy_to_clipboard c (build_magnet encode t.info_hash t.name) "Magnet link copied"

unfoldable pub copy_hash : Clipboard → TorrentInfo → Toast × Bool
copy_hash c t = copy_to_clipboard c t.info_hash "Info hash copied"

abbrev pub torrent_file_link : TorrentInfo → String
torrent_file_link t = "/api/v1/torrents/" <> t.info_hash <> "/torrent_file"

pub record FileRow : Type 0 where
  pub path : String
  pub size : String
  pub priority : String
  pub background : String
  pub color : String
  pub width : ℕ

-- The width of the bar is in hundredths of the whole.
unfoldable pub file_row : Logarithm → TorrentFile → FileRow
file_row js f = record {
  path = f.path;
  size = format_bytes js f.size;
  priority = f.priority;
  background = (priority_style f.priority).0;
  color = (priority_style f.priority).1;
  width = f.progress * 100;
}

-- The heading of the files and their rows, where there are files.
unfoldable pub file_list : Logarithm → Option (List TorrentFile) → Option (String × List FileRow)
unfolding file_row
file_list js none = none
file_list js (some []) = none
file_list js (some (f ∷ fs)) =
    some ("Files (" <> show_nat (length (f ∷ fs)) <> ")", map (file_row js) (f ∷ fs))

-- The category and the tags below the sections.
unfoldable pub labels : TorrentInfo → List String
labels t =
    (if truthy t.category then t.category ∷ [] else [])
    ++ elim t.tags [ none ↦ [] | some tags ↦ tags ]

pub record DetailView : Type 0 where
  pub name : String
  pub hash : String
  pub torrent_file : String
  pub button : String
  pub bar : ℕ
  pub bar_color : String
  pub callout : Option Callout
  pub facts : List Fact
  pub sections : List SectionProps
  pub labels : List String
  pub save : String
  pub content : String
  pub files : Option (String × List FileRow)

-- `?? []`
abbrev count {ℓ} : {A : Type ℓ} → Option (List A) → ℕ
count none = 0
count (some l) = length l

-- `peers` and `trackers` are the lists of the replies, and `one` parts of a progress make up 1.
unfoldable pub detail_view {ℓ} :
    {A B : Type ℓ}
    → Logarithm
    → (ℕ → String)
    → (ℕ → String)
    → (ℕ → String)
    → ℕ
    → Option ℕ
    → Option (List A)
    → Option (List B)
    → Option StallInfo
    → Option (List TorrentFile)
    → TorrentInfo
    → DetailView
unfolding file_list labels
detail_view js ratio percent to_locale one num_pieces peers trackers stall files t = record {
  name = t.name;
  hash = t.info_hash;
  torrent_file = torrent_file_link t;
  button = (primary_button t).0;
  bar = bar_width one t;
  bar_color = (torrent_visual t).color;
  callout = shown_callout stall;
  facts = facts js ratio percent t;
  sections = sections to_locale one num_pieces (count peers) (count trackers) t;
  labels = labels t;
  save = "Save: " <> t.save_path;
  content = "Content: " <> t.content_path;
  files = file_list js files;
}
