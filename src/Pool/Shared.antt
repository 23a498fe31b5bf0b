-- ===== src/Pool/Shared.antt =====
-- common/SharedItemPool.cpp and .h: a pool whose items go back when their last reference goes. The
-- calls on the mutex succeed, and the lock makes each operation one step; what the resetter does to
-- the contents of an item is not modelled.
pub mod History
use hardware_rockchip_camera.Base.{
  ℕ, zero, suc, ◌+◌, Bool, true, false, List, [], ◌∷◌, ◌++◌, Option, none, some, ◌==◌,
  if◌then◌else◌, length,
}
use hardware_rockchip_camera.Status.{Status, ok, invalid_operation}
use hardware_rockchip_camera.Pool.Items.{addresses}

pub record SharedItemPool : Type 0 where
  pub capacity : ℕ
  pub allocated : ℕ
  pub available : List ℕ

unfoldable pub empty_shared : SharedItemPool
empty_shared = record { capacity = 0; allocated = 0; available = [] }

-- `base` is the address that `new ItemType[capacity]` returns.
unfoldable pub init_shared : SharedItemPool → ℕ → ℕ → SharedItemPool × Status
init_shared p base capacity =
    if p.capacity == 0
    then (
      record {
        capacity = capacity;
        allocated = base;
        available = p.available ++ addresses base capacity;
      },
      ok,
    )
    else (p, invalid_operation)

unfoldable pub is_full : SharedItemPool → Bool
is_full p = length p.available == p.capacity

unfoldable pub available_items : SharedItemPool → ℕ
available_items p = length p.available

unfoldable pub de_init_shared : SharedItemPool → SharedItemPool × Status
de_init_shared p =
    if p.capacity == 0
    then (p, ok)
    else (record { capacity = 0; allocated = 0; available = [] }, ok)

acquire_first : SharedItemPool → List ℕ → SharedItemPool × Option ℕ × Status
acquire_first p [] = (p, none, invalid_operation)
acquire_first p (x ∷ xs) = (record p { available = xs }, some x, ok)

-- The item that the new shared_ptr points to. The reference that the argument held before is
-- dropped first, which is a `drop` of its own.
unfoldable pub acquire_shared : SharedItemPool → SharedItemPool × Option ℕ × Status
unfolding acquire_first
acquire_shared p = acquire_first p p.available

-- The deleter of an item's references.
unfoldable pub release_shared : ℕ → SharedItemPool → SharedItemPool
release_shared x p = record p { available = p.available ++ x ∷ [] }

-- An item that clients refer to, with the number of references besides the first.
pub record Reference : Type 0 where
  pub item : ℕ
  pub others : ℕ

pub record Shared : Type 0 where
  pub pool : SharedItemPool
  pub held : List Reference

-- What clients do: acquire an item, copy a reference to one that they hold, or drop one.
pub data Use : Type 0 where
  acquire : Use
  copy drop : ℕ → Use

copy_reference : ℕ → List Reference → List Reference
copy_reference x [] = []
copy_reference x (h ∷ hs) =
    let rest = copy_reference x hs in
    if h.item == x then record h { others = suc h.others } ∷ hs else h ∷ rest

drop_first : ℕ → ℕ → List Reference → List Reference × Bool
drop_first x zero hs = (hs, true)
drop_first x (suc n) hs = (record { item = x; others = n } ∷ hs, false)

-- The references after one of them is dropped, and whether it was the last of its item.
drop_reference : ℕ → List Reference → List Reference × Bool
unfolding drop_first
drop_reference x [] = ([], false)
drop_reference x (h ∷ hs) =
    let (rest, last) = drop_reference x hs in
    if h.item == x then drop_first h.item h.others hs else (h ∷ rest, last)

acquired : Shared → SharedItemPool × Option ℕ × Status → Shared
acquired s (p, none, status) = record s { pool = p }
acquired s (p, some x, status) = record {
  pool = p;
  held = record { item = x; others = 0 } ∷ s.held;
}

dropped : Shared → ℕ → List Reference × Bool → Shared
dropped s x (held, true) = record { pool = release_shared x s.pool; held = held }
dropped s x (held, false) = record s { held = held }

unfoldable pub use_shared : Use → Shared → Shared
unfolding acquired copy_reference drop_reference dropped
use_shared acquire s = acquired s (acquire_shared s.pool)
use_shared (copy x) s = record s { held = copy_reference x s.held }
use_shared (drop x) s = dropped s x (drop_reference x s.held)

unfoldable pub use_all : List Use → Shared → Shared
use_all [] s = s
use_all (u ∷ us) s = use_all us (use_shared u s)
