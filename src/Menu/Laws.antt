-- ===== src/Menu/Laws.antt =====
-- The place of the context menu of web/ui/src/components/torrent/TorrentContextMenu.tsx.
use haul.Base.{ℕ, ◌+◌, ◌≤◌, arith}
use haul.Menu.{Spot, place, reposition}

place_bounds :
    (target size inner : ℕ)
    → size + 8 ≤ inner
    → (8 ≤ place target size inner) × (place target size inner + size ≤ inner)
unfolding place
place_bounds target size inner h = (omega arith, omega arith)

-- Wherever the click was, a menu that leaves 8 pixels of the viewport free in both directions ends
-- up inside it, at least 8 pixels from its left and upper edge.
pub reposition_bounds :
    (target size inner : Spot)
    → size.x + 8 ≤ inner.x
    → size.y + 8 ≤ inner.y
    → (8 ≤ (reposition target size inner).x)
      × ((reposition target size inner).x + size.x ≤ inner.x)
      × (8 ≤ (reposition target size inner).y)
      × ((reposition target size inner).y + size.y ≤ inner.y)
unfolding reposition
reposition_bounds target size inner h v =
    let across = place_bounds target.x size.x inner.x h in
    let down = place_bounds target.y size.y inner.y v in (across.0, across.1, down.0, down.1)
