-- ===== src/Capture/Thread/Fences.antt =====
-- The returned requests that RequestThread (AAL/RequestThread.cpp) keeps for their fences.
use hardware_rockchip_camera.Base.{
  subst, sym, ap, ◌∙◌, ℕ, ◌≡◌, refl, ◌⊎◌, inl, inr, true, false, ◌||◌, List, [], ◌∷◌, All, if_rule,
  if◌then◌else◌, Bool-cases, ◌==◌, ==-eq,
}
use hardware_rockchip_camera.Capture.Stream.{update}
use hardware_rockchip_camera.Capture.Request.{
  CameraBuffer, Camera3Request, any_fence_active, is_any_buf_active, de_init,
}
use hardware_rockchip_camera.Capture.Thread.{
  RequestThread, Answers, release_request, set_request, sweep, swept, keep_active, recycle_request,
}

abbrev HasActive : List CameraBuffer → Type 0
HasActive [] = ⊥
HasActive (b ∷ bs) = (b.fence_active ≡ true) ⊎ HasActive bs

-- One of the request's output buffers has a fence that is not signalled.
abbrev pub HoldsFence : Camera3Request → Type 0
HoldsFence r = HasActive r.output_buffers

-- Every request that is kept holds a fence.
abbrev pub AllHold : RequestThread → Type 0
AllHold t = All (λ y. HoldsFence (t.requests y)) t.active_request

-- Of the requests `xs` those that hold a fence, in order.
abbrev pub Kept : (ℕ → Camera3Request) → List ℕ → List ℕ → Type 0
Kept requests [] ys = ys ≡ []
Kept requests (x ∷ xs) ys =
    (HoldsFence (requests x) × ((zs : List ℕ) × (ys ≡ x ∷ zs) × Kept requests xs zs))
    ⊎ ((¬ (HoldsFence (requests x))) × Kept requests xs ys)

HasActive-true : (bs : List CameraBuffer) → any_fence_active bs ≡ true → HasActive bs
unfolding any_fence_active
HasActive-true [] e = absurd (cc)
HasActive-true (b ∷ bs) e = elim (Bool-cases b.fence_active) [
  | inl this ↦ inl this
  | inr other ↦ inr (HasActive-true bs (sym (ap (λ t. t || any_fence_active bs) other) ∙ e))
]

HasActive-false : (bs : List CameraBuffer) → any_fence_active bs ≡ false → HasActive bs → ⊥
unfolding any_fence_active
HasActive-false [] e h = h
HasActive-false (b ∷ bs) e (inl this) =
    let yes_it : true ≡ false = sym (ap (λ t. t || any_fence_active bs) this) ∙ e in absurd (cc)
HasActive-false (b ∷ bs) e (inr later) = elim (Bool-cases b.fence_active) [
  | inl this ↦
      let yes_it : true ≡ false = sym (ap (λ t. t || any_fence_active bs) this) ∙ e in absurd (cc)
  | inr other ↦ HasActive-false bs (sym (ap (λ t. t || any_fence_active bs) other) ∙ e) later
]

pub active_holds : (r : Camera3Request) → is_any_buf_active r ≡ true → HoldsFence r
unfolding is_any_buf_active
active_holds r e = HasActive-true r.output_buffers e

pub inactive_lacks : (r : Camera3Request) → is_any_buf_active r ≡ false → HoldsFence r → ⊥
unfolding is_any_buf_active
inactive_lacks r e h = HasActive-false r.output_buffers e h

module _ (x y : ℕ) (t : RequestThread) (lacks : HoldsFence (t.requests x) → ⊥) where
  pub release_keeps : HoldsFence (t.requests y) → HoldsFence ((release_request x t).requests y)
  unfolding release_request set_request update
  release_keeps h =
      if_rule (λ (r : Camera3Request). HoldsFence r) (y == x) _ _
        (λ e. absurd (lacks (subst (λ z. HoldsFence (t.requests z)) (==-eq y x e) h))) (λ _. h)

  pub release_lacks : HoldsFence ((release_request x t).requests y) → HoldsFence (t.requests y)
  unfolding release_request set_request update de_init
  release_lacks =
      if_rule (λ (r : Camera3Request). HoldsFence r → HoldsFence (t.requests y)) (y == x) _ _
        (λ _ h. absurd h) (λ _ h. h)

-- The state in which the other requests of `x ∷ xs` are swept.
next_state : ℕ → RequestThread → RequestThread
next_state x t = if is_any_buf_active (t.requests x) then t else release_request x t

next_keeps :
    (x y : ℕ) (t : RequestThread)
    → HoldsFence (t.requests y)
    → HoldsFence ((next_state x t).requests y)
unfolding next_state
next_keeps x y t h =
    if_rule (λ (u : RequestThread). HoldsFence (u.requests y)) (is_any_buf_active (t.requests x)) _
      _ (λ _. h) (λ e. release_keeps x y t (inactive_lacks (t.requests x) e) h)

next_lacks :
    (x y : ℕ) (t : RequestThread)
    → HoldsFence ((next_state x t).requests y)
    → HoldsFence (t.requests y)
unfolding next_state
next_lacks x y t =
    if_rule (λ (u : RequestThread). HoldsFence (u.requests y) → HoldsFence (t.requests y))
      (is_any_buf_active (t.requests x)) _ _ (λ _ h. h)
      (λ e. release_lacks x y t (inactive_lacks (t.requests x) e))

pub Kept-same :
    (r r' : ℕ → Camera3Request) (xs ys : List ℕ)
    → ((y : ℕ) → HoldsFence (r y) → HoldsFence (r' y))
    → ((y : ℕ) → HoldsFence (r' y) → HoldsFence (r y))
    → Kept r xs ys
    → Kept r' xs ys
Kept-same r r' [] ys f g k = k
Kept-same r r' (x ∷ xs) ys f g (inl (h, (zs, e, k))) =
    inl (f x h, (zs, e, Kept-same r r' xs zs f g k))
Kept-same r r' (x ∷ xs) ys f g (inr (n, k)) = inr ((λ h. n (g x h)), Kept-same r r' xs ys f g k)

sweep_keeps :
    (xs : List ℕ) (t : RequestThread) (y : ℕ)
    → HoldsFence (t.requests y)
    → HoldsFence ((sweep xs t).1.requests y)
unfolding sweep next_state
sweep_keeps [] t y h = h
sweep_keeps (x ∷ xs) t y h = sweep_keeps xs (next_state x t) y (next_keeps x y t h)

sweep_holds :
    (xs : List ℕ) (t : RequestThread)
    → All (λ y. HoldsFence ((sweep xs t).1.requests y)) (sweep xs t).0
unfolding sweep next_state
sweep_holds [] t = tt
sweep_holds (x ∷ xs) t =
    let rest = sweep xs (next_state x t) in
    if_rule (λ ys. All (λ y. HoldsFence (rest.1.requests y)) ys) (is_any_buf_active (t.requests x))
      _ _
      (λ e. (
        sweep_keeps xs (next_state x t) x (next_keeps x x t (active_holds (t.requests x) e)),
        sweep_holds xs (next_state x t),
      ))
      (λ _. sweep_holds xs (next_state x t))

pub sweep-Kept : (xs : List ℕ) (t : RequestThread) → Kept t.requests xs (sweep xs t).0
unfolding sweep next_state
sweep-Kept [] t = refl
sweep-Kept (x ∷ xs) t =
    let rest = sweep xs (next_state x t) in
    let kept : Kept t.requests xs rest.0 =
      Kept-same (next_state x t).requests t.requests xs rest.0 (λ y. next_lacks x y t)
        (λ y. next_keeps x y t) (sweep-Kept xs (next_state x t)) in
    if_rule (Kept t.requests (x ∷ xs)) (is_any_buf_active (t.requests x)) _ _
      (λ e. inl (active_holds (t.requests x) e, (rest.0, refl, kept)))
      (λ e. inr (inactive_lacks (t.requests x) e, kept))

pub recycle_holds : (a : Answers) (x : ℕ) (t : RequestThread) → AllHold (recycle_request a x t)
unfolding recycle_request swept
recycle_holds a x t =
    let t' = if is_any_buf_active (t.requests x) then keep_active a x t else release_request x t in
    sweep_holds t'.active_request t'
