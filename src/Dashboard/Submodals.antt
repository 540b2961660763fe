-- ===== src/Dashboard/Submodals.antt =====
-- The dialogs that the context menu opens in web/ui/src/pages/torrents/TorrentList.tsx: category, tags
-- and location. `trim` is the text method; the torrent is the one that the dialog was opened for.
use haul.Base.{
  Bool, true, false, Option, none, some, List, [], ◌∷◌, String, ◌<>◌, truthy, if◌then◌else◌,
}
use haul.Torrents.{TorrentInfo}
use haul.Api.Types.{Mutation}
use haul.Api.Torrents.{
  use_set_torrent_category, use_add_torrent_tags, use_remove_torrent_tags, use_set_torrent_location,
}

pub data Notice : Type 0 where
  success error : String → Notice

-- What a reply does: the notice, whether the dialog closes, and whether its input is emptied.
pub record Outcome : Type 0 where
  pub notice : Notice
  pub closes : Bool
  pub empties : Bool

-- The text of an error, or none for a success.
abbrev outcome : String → Bool → Bool → Option String → Outcome
outcome message closes empties none = record {
  notice = success message;
  closes = closes;
  empties = empties;
}
outcome message closes empties (some e) = record {
  notice = error e;
  closes = false;
  empties = false;
}

-- What is sent, and what its reply does.
abbrev pub Submission : Type 0
Submission = Mutation × (Option String → Outcome)

-- `pending` disables the button; the Enter key submits all the same.
unfoldable pub submit_disabled : Bool → Bool
submit_disabled pending = pending

module _ (trim : String → String) where
  abbrev pub initial_category : TorrentInfo → String
  initial_category t = t.category

  unfoldable pub submit_category : TorrentInfo → String → Submission
  submit_category t value = (
    use_set_torrent_category t.info_hash (trim value),
    outcome
        (if truthy (trim value)
          then "Category set to \"" <> trim value <> "\""
          else "Category cleared")
        true false,
  )

  unfoldable pub submit_add : TorrentInfo → String → Option Submission
  submit_add t add_input =
      let tag = trim add_input in
      if truthy tag
      then some (
        use_add_torrent_tags t.info_hash (tag ∷ []),
        outcome ("Tag \"" <> tag <> "\" added") false true,
      )
      else none

  unfoldable pub submit_location : TorrentInfo → String → Option Submission
  submit_location t value =
      let path = trim value in
      if truthy path
      then some (use_set_torrent_location t.info_hash path, outcome "Move started" true false)
      else none

unfoldable pub remove_tag : TorrentInfo → String → Submission
remove_tag t tag = (
  use_remove_torrent_tags t.info_hash (tag ∷ []),
  outcome ("Tag \"" <> tag <> "\" removed") false false,
)

-- The tags that the dialog shows.
unfoldable pub shown_tags : TorrentInfo → List String
shown_tags t = elim t.tags [ none ↦ [] | some ts ↦ ts ]
