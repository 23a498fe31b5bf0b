-- ===== src/Pool/Shared/History.antt =====
-- Histories of a SharedItemPool (common/SharedItemPool.cpp): every item is available or referred to.
use mathlib.Core.List.{append-nil, append_assoc, perm_middle}
use mathlib.Core.List.Perm
use hardware_rockchip_camera.Base.{
  subst, sym, ap, ℕ, zero, suc, ◌+◌, ◌≡◌, refl, ◌⊎◌, inl, inr, Bool, true, false, List, [], ◌∷◌,
  ◌++◌, Perm, ◌==◌, if_rule, length, length-append, length-Perm, arith, ==-eq,
}
use hardware_rockchip_camera.Pool.Items.{addresses}
use hardware_rockchip_camera.Pool.Items.Owned.{length-addresses}
use hardware_rockchip_camera.Pool.Shared.{
  SharedItemPool, Shared, Reference, Use, acquire, copy, drop, empty_shared, init_shared, is_full,
  acquire_first, acquire_shared, release_shared, copy_reference, drop_reference, drop_first,
  acquired, dropped, use_shared, use_all,
}

abbrev pub items : List Reference → List ℕ
items [] = []
items (h ∷ hs) = h.item ∷ items hs

-- Every item of the array is in the pool or held by clients, once.
pub record IsShared (s : Shared) : Type 0 where
  pub all_there :
      Perm (s.pool.available ++ items s.held) (addresses s.pool.allocated s.pool.capacity)

items-copy_reference : (x : ℕ) (hs : List Reference) → items (copy_reference x hs) ≡ items hs
unfolding copy_reference
items-copy_reference x [] = refl
items-copy_reference x (h ∷ hs) =
    let rest = items-copy_reference x hs in
    if_rule (λ ys. items ys ≡ h.item ∷ items hs) (h.item == x) _ _ (λ _. refl)
      (λ _. ap (λ ys. h.item ∷ ys) rest)

abbrev Drops : ℕ → List Reference → List Reference × Bool → Type 0
Drops x hs r =
    ((r.1 ≡ true) × Perm (items hs) (x ∷ items r.0)) ⊎ ((r.1 ≡ false) × (items r.0 ≡ items hs))

drop_first-Drops :
    (x n : ℕ) (h : Reference) (hs : List Reference)
    → h.item ≡ x
    → Drops x (h ∷ hs) (drop_first h.item n hs)
unfolding drop_first
drop_first-Drops x zero h hs e =
    inl (refl, subst (λ y. Perm (h.item ∷ items hs) (y ∷ items hs)) e Perm.rfl)
drop_first-Drops x (suc n) h hs e = inr (refl, refl)

Drops-cons :
    (x : ℕ) (h : Reference) (hs : List Reference) (r : List Reference × Bool)
    → Drops x hs r
    → Drops x (h ∷ hs) (h ∷ r.0, r.1)
Drops-cons x h hs r (inl (e, p)) =
    inl (e, Perm.trans (Perm.append_left (h.item ∷ []) p) (perm_middle (h.item ∷ []) (items r.0)))
Drops-cons x h hs r (inr (e, p)) = inr (e, ap (λ ys. h.item ∷ ys) p)

drop_reference-Drops : (x : ℕ) (hs : List Reference) → Drops x hs (drop_reference x hs)
unfolding drop_reference
drop_reference-Drops x [] = inr (refl, refl)
drop_reference-Drops x (h ∷ hs) =
    let rest = drop_reference-Drops x hs in
    if_rule (Drops x (h ∷ hs)) (h.item == x) _ _
      (λ e. drop_first-Drops x h.others h hs (==-eq h.item x e))
      (λ _. Drops-cons x h hs (drop_reference x hs) rest)

abbrev with_available : SharedItemPool → List ℕ → SharedItemPool
with_available p xs = record p { available = xs }

acquire_first-IsShared :
    (p : SharedItemPool) (xs : List ℕ) (held : List Reference)
    → IsShared (record { pool = with_available p xs; held = held })
    → IsShared (
        acquired
          (record { pool = with_available p xs; held = held })
          (acquire_first (with_available p xs) xs))
unfolding acquired acquire_first
acquire_first-IsShared p [] held o = record { all_there = o.all_there }
acquire_first-IsShared p (x ∷ xs) held o = record {
  all_there = Perm.trans (perm_middle xs (items held)) o.all_there;
}

dropped-IsShared :
    (s : Shared) (x : ℕ) (r : List Reference × Bool)
    → IsShared s
    → Drops x s.held r
    → IsShared (dropped s x r)
unfolding dropped release_shared
dropped-IsShared s x (held, true) o (inl (e, p)) = record {
  all_there =
      Perm.trans
        (subst (λ ys. Perm ys (s.pool.available ++ items s.held))
          (sym (append_assoc s.pool.available (x ∷ []) (items held)))
          (Perm.append_left s.pool.available (Perm.symm p)))
        o.all_there;
}
dropped-IsShared s x (held, true) o (inr (e, p)) = absurd cc
dropped-IsShared s x (held, false) o (inl (e, p)) = absurd cc
dropped-IsShared s x (held, false) o (inr (e, p)) = record {
  all_there =
      subst (λ ys. Perm (s.pool.available ++ ys) (addresses s.pool.allocated s.pool.capacity))
        (sym p) o.all_there;
}

use_shared-IsShared : (u : Use) (s : Shared) → IsShared s → IsShared (use_shared u s)
unfolding use_shared acquire_shared
use_shared-IsShared acquire s o = acquire_first-IsShared s.pool s.pool.available s.held o
use_shared-IsShared (copy x) s o = record {
  all_there =
      subst (λ ys. Perm (s.pool.available ++ ys) (addresses s.pool.allocated s.pool.capacity))
        (sym (items-copy_reference x s.held)) o.all_there;
}
use_shared-IsShared (drop x) s o =
    dropped-IsShared s x (drop_reference x s.held) o (drop_reference-Drops x s.held)

use_all-IsShared : (us : List Use) (s : Shared) → IsShared s → IsShared (use_all us s)
unfolding use_all
use_all-IsShared [] s o = o
use_all-IsShared (u ∷ us) s o = use_all-IsShared us (use_shared u s) (use_shared-IsShared u s o)

length-items : (hs : List Reference) → length (items hs) ≡ length hs
length-items [] = refl
length-items (h ∷ hs) = ap suc (length-items hs)

-- A pool after init, with no client yet.
abbrev pub fresh_shared : ℕ → ℕ → Shared
fresh_shared base capacity = record { pool = (init_shared empty_shared base capacity).0; held = [] }

fresh_shared-IsShared : (base capacity : ℕ) → IsShared (fresh_shared base capacity)
unfolding init_shared empty_shared
fresh_shared-IsShared base capacity = record { all_there = rw append-nil Perm.rfl }

full_unless_held : (s : Shared) → IsShared s → is_full s.pool ≡ (length s.held == 0)
unfolding is_full
full_unless_held s o =
    let total : length s.pool.available + length s.held ≡ s.pool.capacity = omega (
      arith,
      length-append s.pool.available (items s.held),
      length-items s.held,
      length-Perm _ _ o.all_there,
      length-addresses s.pool.allocated s.pool.capacity,
    ) in
    ground arith

-- However clients acquire items, copy their references and drop them, every item of an initialised pool is in the pool or referred to, once, and the pool is full exactly when no reference is left.
pub pool_items_balance :
    (us : List Use) (base capacity : ℕ)
    → IsShared (use_all us (fresh_shared base capacity))
      × (is_full (use_all us (fresh_shared base capacity)).pool
          ≡ (length (use_all us (fresh_shared base capacity)).held == 0))
pool_items_balance us base capacity =
    let o =
      use_all-IsShared us (fresh_shared base capacity) (fresh_shared-IsShared base capacity) in
    (o, full_unless_held (use_all us (fresh_shared base capacity)) o)
