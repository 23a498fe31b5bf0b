-- ===== src/Pool/Items.antt =====
-- common/ItemPool.h: a pool of items in one array. An item pointer is a number, counted in items,
-- and 0 is nullptr; what `new ItemType[n]` returns is an argument.
pub mod Owned
use hardware_rockchip_camera.Base.{
  ℕ, zero, suc, Bool, true, false, ◌&&◌, not, List, [], ◌∷◌, ◌++◌, Option, none, some, ◌==◌,
  if◌then◌else◌, length,
}
use hardware_rockchip_camera.Status.{Status, ok, bad_value, invalid_operation}

pub record ItemPool : Type 0 where
  pub allocated_items : ℕ
  pub pool_size : ℕ
  pub items_in_pool : List ℕ
  pub initialized : Bool

unfoldable pub empty_pool : ItemPool
empty_pool = record { allocated_items = 0; pool_size = 0; items_in_pool = []; initialized = false }

-- The addresses &mAllocatedItems[0], ..., &mAllocatedItems[n - 1].
unfoldable pub addresses : ℕ → ℕ → List ℕ
addresses base zero = []
addresses base (suc n) = base ∷ addresses (suc base) n

pub de_init : ItemPool → ItemPool
de_init p = record { allocated_items = 0; pool_size = 0; items_in_pool = []; initialized = false }

fill : ItemPool → ℕ → ℕ → ItemPool
fill p base pool_size = record {
  allocated_items = base;
  pool_size = pool_size;
  items_in_pool = p.items_in_pool ++ addresses base pool_size;
  initialized = true;
}

unfoldable pub init : ItemPool → ℕ → ℕ → ItemPool
unfolding fill de_init addresses empty_pool
init p base pool_size = fill (if p.initialized then de_init p else p) base pool_size

-- The item that `acquireItem` stores through its argument, if it stores one. The flag says whether
-- that argument is nullptr.
acquire_from : ItemPool → List ℕ → ItemPool × Option ℕ × Status
acquire_from p [] = (p, none, invalid_operation)
acquire_from p (x ∷ xs) = (record p { items_in_pool = xs }, some x, ok)

unfoldable pub acquire_item : ItemPool → Bool → ItemPool × Option ℕ × Status
unfolding acquire_from
acquire_item p true = (p, none, bad_value)
acquire_item p false = acquire_from p p.items_in_pool

-- The loop over the array, which stops at the first hit.
pub belongs : ℕ → ℕ → ℕ → Bool
belongs item base zero = false
belongs item base (suc n) = if item == base then true else belongs item (suc base) n

unfoldable pub release_item : ItemPool → ℕ → ItemPool × Status
unfolding belongs
release_item p item =
    if item == 0
    then (p, bad_value)
    else if belongs item p.allocated_items p.pool_size
        && not (length p.items_in_pool == p.pool_size)
    then (record p { items_in_pool = p.items_in_pool ++ item ∷ [] }, ok)
    else (p, bad_value)
