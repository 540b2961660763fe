-- ===== src/Menu/Actions.antt =====
-- The items of the context menu: what a click can send.
use haul.Base.{Bool, true, false, ◌||◌, none, some}
use haul.Api.Types.{Method, delete}
use haul.Menu.Items.{send, send_research, ask, open_submodal, copy, Item, sent}

abbrev pub is_delete : Method → Bool
is_delete delete = true
is_delete _ = false

-- Whether the item asks the requester for another release.
abbrev pub is_research : Item → Bool
is_research i = elim i.act [
  | send m notice ↦ false
  | send_research m ↦ true
  | ask options m notice ↦ false
  | open_submodal kind ↦ false
  | copy label text ↦ false
]

-- Whether the item can send a removal, for an answer of the dialog: a deletion, or the search for
-- another release, in which the server removes the torrent as well (the comment at
-- useResearchTorrent).
abbrev pub removes : Bool → Item → Bool
removes answer i =
    is_research i || elim (sent i.act answer) [ none ↦ false | some m ↦ is_delete m.request.method ]
