-- ===== src/Menu/Listeners.antt =====
-- web/ui/src/components/torrent/TorrentContextMenu.tsx: what closes the menu, with the state that
-- web/ui/src/pages/torrents/TorrentList.tsx keeps of it.
use haul.Base.{Bool, true, false, Option, none, some, String, str_eq, if◌then◌else◌}

-- What the listeners on the document and the window hear. A press is inside the menu or outside.
pub data Heard : Type 0 where
  pressed : Bool → Heard
  key : String → Heard
  scrolled resized : Heard

-- Whether `onClose` is called; an open menu has its element.
unfoldable pub closes : Heard → Bool
closes (pressed inside) = if inside then false else true
closes (key name) = str_eq name "Escape"
closes scrolled = true
closes resized = true

-- What happens to the menu: a listener, an item that runs and closes, or a row that opens it anew.
pub data MenuEvent {ℓ} (T : Type ℓ) : Type ℓ where
  heard : Heard → MenuEvent T
  item_clicked : MenuEvent T
  opened : T → MenuEvent T

-- The listeners are there while the menu is open.
unfoldable pub on_menu {ℓ} : {T : Type ℓ} → Option T → MenuEvent T → Option T
unfolding closes
on_menu none (opened t) = some t
on_menu none (heard h) = none
on_menu none item_clicked = none
on_menu (some t) (heard h) = if closes h then none else some t
on_menu (some t) item_clicked = none
on_menu (some t) (opened t') = some t'
