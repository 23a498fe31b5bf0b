-- ===== src/Pool/Items/Owned.antt =====
-- Who holds the items of an ItemPool (common/ItemPool.h).
use mathlib.Core.List.{
  Mem, mem-cons, not-mem-nil, perm_middle, append_assoc, append-nil, mem-append_right,
  mem-cons_self,
}
use mathlib.Core.List.Perm
use mathlib.Core.Logic.Or
use hardware_rockchip_camera.Base.{
  ℕ, zero, suc, ◌+◌, ◌<◌, ◌⊎◌, inl, inr, ◌≡◌, refl, ap, ◌≢◌, Bool, true, false, List, [], ◌∷◌, ◌++◌,
  Option, none, some, Perm, arith, length, length-append, length-Perm, ==-refl,
}
use hardware_rockchip_camera.Status.{Status, ok, bad_value, invalid_operation}
use hardware_rockchip_camera.Pool.Items.{
  ItemPool, empty_pool, addresses, init, acquire_item, belongs, release_item,
}

-- Every address of the array is either in the pool or held by a client, once.
pub record Owns (p : ItemPool) (held : List ℕ) : Type 0 where
  pub allocated : p.allocated_items ≢ 0
  pub all_there : Perm (p.items_in_pool ++ held) (addresses p.allocated_items p.pool_size)

pub length-addresses : (base n : ℕ) → length (addresses base n) ≡ n
unfolding addresses
length-addresses base zero = refl
length-addresses base (suc n) = ap suc (length-addresses (suc base) n)

Bool-eq-prop : (b c : Bool) → IsProp (b ≡ c)
Bool-eq-prop b c = hlevel

belongs-mem : (x base n : ℕ) → Mem x (addresses base n) → belongs x base n ≡ true
unfolding addresses belongs
belongs-mem x base zero m = absurd (not-mem-nil m)
belongs-mem x base (suc n) m =
    Or.elim (Bool-eq-prop _ _) (mem-cons.0 m) (λ e. rw (e, ==-refl base))
      (λ later. ground (arith, belongs-mem x (suc base) n later))

belongs_pos : (x base n : ℕ) → base ≢ 0 → belongs x base n ≡ true → x ≢ 0
unfolding belongs
belongs_pos x base zero h b = cc
belongs_pos x base (suc n) h b = ground (arith, belongs_pos x (suc base) n)

module _ (p : ItemPool) (held : List ℕ) where
  pub length-Owns : Owns p held → length p.items_in_pool + length held ≡ p.pool_size
  length-Owns o = omega (
    arith,
    length-append p.items_in_pool held,
    length-Perm _ _ o.all_there,
    length-addresses p.allocated_items p.pool_size,
  )

abbrev with_items : ItemPool → List ℕ → ItemPool
with_items p xs = record p { items_in_pool = xs }

abbrev pub Acquires : ItemPool → List ℕ → ItemPool × Option ℕ × Status → Type 0
Acquires p held r =
    ((length held ≡ p.pool_size) × (r ≡ (p, none, invalid_operation)))
    ⊎ ((length held < p.pool_size)
        × ((x : ℕ) × (q : ItemPool) × (r ≡ (q, some x, ok))
            × Owns q (x ∷ held)
            × (q.pool_size ≡ p.pool_size)))

acquire_from-Acquires :
    (p : ItemPool) (xs held : List ℕ)
    → Owns (with_items p xs) held
    → Acquires (with_items p xs) held (acquire_item (with_items p xs) false)
unfolding acquire_item
acquire_from-Acquires p [] held o = let full = length-Owns _ held o in inl (omega arith, refl)
acquire_from-Acquires p (x ∷ xs) held o =
    let room = length-Owns _ held o in inr (omega arith, (x, with_items p xs, refl, owns, refl))
  where
    owns : Owns (with_items p xs) (x ∷ held)
    owns = record {
      allocated = o.allocated;
      all_there = Perm.trans (perm_middle xs held) o.all_there;
    }

-- On a pool whose books balance, an item is handed out exactly while the clients hold fewer than the pool's size, and then the
-- books still balance with that item held; else the pool is unchanged and the code is
-- INVALID_OPERATION.
pub acquire_item-Owns :
    (p : ItemPool) (held : List ℕ) → Owns p held → Acquires p held (acquire_item p false)
acquire_item-Owns p held o = acquire_from-Acquires p p.items_in_pool held o

module _ (p : ItemPool) (before after : List ℕ) (x : ℕ) (o : Owns p (before ++ x ∷ after)) where
  held_mem : Mem x (addresses p.allocated_items p.pool_size)
  held_mem =
      (Perm.mem_iff o.all_there).0
        (mem-append_right p.items_in_pool (mem-append_right before mem-cons_self))

  held_belongs : belongs x p.allocated_items p.pool_size ≡ true
  held_belongs = belongs-mem x _ _ held_mem

  held_room : length p.items_in_pool ≢ p.pool_size
  held_room e =
      omega (arith, length-Owns p (before ++ x ∷ after) o, length-append before (x ∷ after))

  -- On a pool whose books balance, a held item is always taken back: the call succeeds, the item goes to the end of the queue, and
  -- the books balance without it.
  pub release_item-Owns :
      (q : ItemPool) × (release_item p x ≡ (q, ok))
      × Owns q (before ++ after)
      × (q.items_in_pool ≡ p.items_in_pool ++ x ∷ [])
      × (q.pool_size ≡ p.pool_size)
  unfolding release_item
  release_item-Owns = (
    with_items p (p.items_in_pool ++ x ∷ []),
    ground
        (arith, held_belongs, held_room, belongs_pos x p.allocated_items p.pool_size o.allocated),
    record { allocated = o.allocated; all_there = Perm.trans moved o.all_there },
    refl,
    refl,
  )
    where
      moved :
          Perm
            ((p.items_in_pool ++ x ∷ []) ++ (before ++ after))
            (p.items_in_pool ++ (before ++ x ∷ after))
      moved =
          rw (append_assoc p.items_in_pool (x ∷ []) (before ++ after))
            (Perm.append_left p.items_in_pool (Perm.symm (perm_middle before after)))

-- After init with an array that is not at nullptr, a pool that was initialised or is new holds all
-- items of the array, once, and no client holds one.
pub init-Owns :
    (p : ItemPool) (base n : ℕ)
    → base ≢ 0
    → (p.initialized ≡ true) ⊎ (p ≡ empty_pool)
    → Owns (init p base n) []
unfolding init empty_pool
init-Owns p base n h (inl e) = rw e (record { allocated = h; all_there = rw append-nil Perm.rfl })
init-Owns p base n h (inr e) = rw e (record { allocated = h; all_there = rw append-nil Perm.rfl })

-- A pointer outside the array is refused with BAD_VALUE and changes nothing, and so is any pointer while
-- no item is out.
pub release_item_refuses :
    (p : ItemPool) (x : ℕ)
    → (belongs x p.allocated_items p.pool_size ≡ false) ⊎ Owns p []
    → release_item p x ≡ (p, bad_value)
unfolding release_item
release_item_refuses p x (inl e) = ground arith
release_item_refuses p x (inr o) = ground (arith, length-Owns p [] o)
