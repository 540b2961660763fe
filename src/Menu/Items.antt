-- ===== src/Menu/Items.antt =====
-- The items of web/ui/src/components/torrent/TorrentContextMenu.tsx: which there are for a torrent, and
-- what a click on each does. `encode` is `encodeURIComponent`, `lower` is `toLowerCase`.
use haul.Base.{
  Bool, true, false, not, ◌&&◌, ◌||◌, Option, none, some, List, [], ◌∷◌, ◌++◌, String, ◌<>◌, str_eq,
  truthy, truthy?, if◌then◌else◌,
}
use haul.Torrents.{TorrentInfo}
use haul.Api.Types.{Mutation}
use haul.Api.Torrents.{
  use_pause_torrent, use_resume_torrent, use_delete_torrent, use_force_start_torrent,
  use_recheck_torrent, use_reannounce_torrent, use_research_torrent,
}
use haul.Confirm.{ConfirmOptions}
use haul.Dashboard.Page.{Submodal, category, tags, location}

-- The reply to a search for an alternative.
pub record ResearchReply : Type 0 where
  pub result : String
  pub release_title : Option String
  pub reason : Option String

-- What a click does. Every one closes the menu.
pub data Act : Type 0 where
  -- a request, and the notice of its success
  send : Mutation → String → Act
  send_research : Mutation → Act
  -- a question, with the request that a yes sends and the notice of its success
  ask : ConfirmOptions → Mutation → String → Act
  open_submodal : Submodal → Act
  -- a label and the text that is copied
  copy : String → String → Act

pub record Item : Type 0 where
  pub label : String
  pub act : Act
  pub disabled : Bool
  pub danger : Bool
  pub hint : Option String

abbrev item : String → Act → Item
item label act = record { label = label; act = act; disabled = false; danger = false; hint = none }

abbrev pub is_paused : TorrentInfo → Bool
is_paused t = str_eq t.status "paused"

abbrev pub is_stalled : TorrentInfo → Bool
is_stalled t = truthy? t.stalled_at

abbrev pub is_complete : TorrentInfo → Bool
is_complete t = str_eq t.status "completed" || str_eq t.status "seeding"

abbrev pub requester_is : TorrentInfo → String → Bool
requester_is t name = elim t.requester [ none ↦ false | some r ↦ str_eq r name ]

-- `handleRemove`
unfoldable pub remove_act : TorrentInfo → Bool → Act
remove_act t delete_files =
    ask
      (record {
        title = if delete_files then "Remove and delete files" else "Remove torrent";
        message =
            if delete_files
            then "Remove \"" <> t.name <> "\" and PERMANENTLY delete its downloaded files?"
            else "Remove \"" <> t.name <> "\" from Haul? Files on disk are kept.";
        confirm_label = some (if delete_files then "Delete files" else "Remove");
        danger = some true;
      })
      (use_delete_torrent t.info_hash delete_files)
      (if delete_files then "Removed and files deleted" else "Removed")

-- `handleRecheck`
unfoldable pub recheck_act : TorrentInfo → Act
recheck_act t =
    ask
      (record {
        title = "Force recheck";
        message =
            "Re-verify all downloaded data for \"" <> t.name
            <> "\"? This can take a while for large torrents.";
        confirm_label = some "Recheck";
        danger = none;
      })
      (use_recheck_torrent t.info_hash) "Recheck started"

-- The items of the status, up to the search.
unfoldable pub status_items : TorrentInfo → List Item
status_items t =
    (if is_paused t
      then item (if is_stalled t then "Resume (clear stalled)" else "Resume") (
          send (use_resume_torrent t.info_hash)
            (if is_stalled t then "Resumed — stalled cleared" else "Resumed"))
        ∷ []
      else [])
    ++ ((if not (is_paused t)
          then item "Pause" (send (use_pause_torrent t.info_hash) "Paused") ∷ []
          else [])
        ++ (item "Force start (bypass queue)"
              (send (use_force_start_torrent t.info_hash) "Force-started")
            ∷ (if is_stalled t && (requester_is t "pilot" || requester_is t "prism")
                then item
                    ("Re-search via " <> (if requester_is t "pilot" then "Pilot" else "Prism"))
                    (send_research (use_research_torrent t.info_hash))
                  ∷ []
                else [])))

abbrev pub cannot_move : TorrentInfo → Bool
cannot_move t = not (is_complete t) && not (is_paused t)

-- `buildMagnet`
unfoldable pub build_magnet : (String → String) → TorrentInfo → String
build_magnet encode t = "magnet:?xt=urn:btih:" <> t.info_hash <> "&dn=" <> encode t.name

unfoldable pub menu_items : (String → String) → TorrentInfo → List Item
unfolding status_items build_magnet remove_act recheck_act
menu_items encode t =
    status_items t
    ++ (item "Force recheck…" (recheck_act t)
        ∷ item "Force reannounce"
            (send (use_reannounce_torrent t.info_hash) "Reannounced to trackers")
        ∷ item "Category…" (open_submodal category)
        ∷ item "Tags…" (open_submodal tags)
        ∷ record {
          label = "Move location…";
          act = open_submodal location;
          disabled = cannot_move t;
          danger = false;
          hint = if cannot_move t then some "Pause before moving" else none;
        }
        ∷ item "Copy name" (copy "Name" t.name)
        ∷ item "Copy hash" (copy "Hash" t.info_hash)
        ∷ item "Copy magnet" (copy "Magnet" (build_magnet encode t))
        ∷ item "Copy save path" (copy "Save path" t.save_path)
        ∷ record {
          label = "Remove (keep files)";
          act = remove_act t false;
          disabled = false;
          danger = true;
          hint = none;
        }
        ∷ record {
          label = "Remove and delete files";
          act = remove_act t true;
          disabled = false;
          danger = true;
          hint = none;
        }
        ∷ [])

abbrev pub text_or : Option String → String → String
text_or none s = s
text_or (some t) s = if truthy t then t else s

abbrev pub template_text : Option String → String
template_text none = "undefined"
template_text (some s) = s

-- The notice of a reply to the search, and whether it is one of success.
unfoldable pub research_notice : ResearchReply → Bool × String
research_notice r =
    if str_eq r.result "grabbed"
    then (true, "Grabbed alternative: " <> template_text r.release_title)
    else (false, text_or r.reason "No alternative releases available")

-- `handleCopy`, for whether the clipboard took the text.
unfoldable pub copy_notice : (String → String) → String → Bool → Bool × String
copy_notice lower label true = (true, label <> " copied")
copy_notice lower label false = (false, "Failed to copy " <> lower label)

-- What is sent for an answer to the question.
unfoldable pub sent : Act → Bool → Option Mutation
sent (send m notice) answer = some m
sent (send_research m) answer = some m
sent (ask options m notice) answer = if answer then some m else none
sent (open_submodal kind) answer = none
sent (copy label text) answer = none
