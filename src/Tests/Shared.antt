-- ===== src/Tests/Shared.antt =====
-- A SharedItemPool on concrete input (common/SharedItemPool.cpp).
use hardware_rockchip_camera.Base.{◌≡◌, refl, List, [], ◌∷◌, ◌==◌, length}
use hardware_rockchip_camera.Pool.Items.{addresses}
use hardware_rockchip_camera.Pool.Shared.{
  Use, acquire, copy, drop, empty_shared, init_shared, is_full, acquire_shared, release_shared,
  use_shared, use_all,
}
use hardware_rockchip_camera.Pool.Shared.History.{IsShared, fresh_shared, pool_items_balance}

abbrev uses : List Use
uses = acquire ∷ copy 70 ∷ acquire ∷ drop 70 ∷ drop 71 ∷ []

-- One reference to the item 70 is left.
seventy_left : (use_all uses (fresh_shared 70 2)).held ≡ record { item = 70; others = 0 } ∷ []
unfolding use_all use_shared acquire_shared release_shared init_shared empty_shared addresses
seventy_left = refl

pool_items_balance_example :
    IsShared (use_all uses (fresh_shared 70 2))
    × (is_full (use_all uses (fresh_shared 70 2)).pool
        ≡ (length (use_all uses (fresh_shared 70 2)).held == 0))
pool_items_balance_example = pool_items_balance uses 70 2
