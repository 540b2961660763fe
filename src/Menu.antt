-- ===== src/Menu.antt =====
-- web/ui/src/components/torrent/TorrentContextMenu.tsx: where the menu stands, in whole pixels.
use haul.Base.{ℕ, ◌+◌, ◌-◌, max}
mod Items
mod Actions
mod Laws
mod Listeners
mod Tests

pub record Spot : Type 0 where
  pub x : ℕ
  pub y : ℕ

-- `Math.max(8, target - Math.max(0, overflow) - 8)` with `overflow = target + size - inner`: a
-- difference below 0 stops there, and the outer `Math.max` gives 8 in both readings.
unfoldable pub place : ℕ → ℕ → ℕ → ℕ
place target size inner =
    let overflow = target + size - inner in max 8 (target - max 0 overflow - 8)

-- The effect, for the target, the size of the menu and that of the viewport.
unfoldable pub reposition : Spot → Spot → Spot → Spot
unfolding place
reposition target size inner = record {
  x = place target.x size.x inner.x;
  y = place target.y size.y inner.y;
}
