-- ===== src/Capture/Thread/Books.antt =====
-- The books of RequestThread (AAL/RequestThread.cpp): which requests are out, and their number.
use mathlib.Core.List.{append-nil, append_assoc}
use hardware_rockchip_camera.Base.{
  subst, sym, ap, ◌∙◌, ℕ, suc, ◌+◌, ◌≡◌, refl, ◌⊎◌, inl, inr, List, [], ◌∷◌, ◌++◌, Option, none,
  some, length, arith, length-append,
}
use hardware_rockchip_camera.Base.Signed.{ℤ, pos, ◌-ℤ◌, eq_of_parts, -ℤ_parts}
use hardware_rockchip_camera.Status.{Status}
use hardware_rockchip_camera.Pool.Items.{ItemPool}
use hardware_rockchip_camera.Pool.Items.Owned.{Owns}
use hardware_rockchip_camera.Capture.Thread.{
  BlockAction, RequestThread, Answers, Capture, accepted, blocked, failed, recycle_request,
}
use hardware_rockchip_camera.Capture.Thread.Accounts.{Heaped, Owns-middle}
use hardware_rockchip_camera.Capture.Thread.Recycle.{Pooled, recycle_request-Pooled}
use hardware_rockchip_camera.Capture.Thread.Loop.{uncount, retried}

abbrev pub waiting_list : Option ℕ → List ℕ
waiting_list none = []
waiting_list (some w) = w ∷ []

-- The requests in `hal` are with the hardware: together with the one that waits and with those that
-- hold a fence they are all that is out of the pool; mRequestsInHAL counts them and the waiting one;
-- and a request waits only while a blocking action is set.
pub record Books (t : RequestThread) (hal : List ℕ) : Type 0 where
  pub owns : Owns t.requests_pool ((hal ++ waiting_list t.waiting_request) ++ t.active_request)
  pub counted : t.requests_in_hal ≡ pos (length hal + length (waiting_list t.waiting_request))
  pub parked : t.block_action ≡ none → t.waiting_request ≡ none

pub Books-Pooled :
    (t t' : RequestThread) (hal : List ℕ)
    → Books t hal
    → Pooled (hal ++ waiting_list t.waiting_request) t t'
    → Books t' hal
Books-Pooled t t' hal b (q, ac, r, e, o) =
    subst (λ (w : RequestThread). Books w hal) (sym e)
      (record { owns = o; counted = b.counted; parked = b.parked })

pub Books-Heaped : (t t' : RequestThread) (hal : List ℕ) → Books t hal → Heaped t t' → Books t' hal
Books-Heaped t t' hal b (h, e, c) =
    subst (λ (w : RequestThread). Books w hal) (sym e)
      (record { owns = b.owns; counted = b.counted; parked = b.parked })

pub pos_suc : (n : ℕ) → pos (suc n) -ℤ pos 1 ≡ pos n
pos_suc n = eq_of_parts _ _ (omega (arith, -ℤ_parts (pos (suc n)) (pos 1)))

Owns-shift :
    (p : ItemPool) (x : ℕ) (xs ys zs ws : List ℕ)
    → Owns p (((xs ++ x ∷ ys) ++ zs) ++ ws)
    → Owns p (x ∷ ((xs ++ ys) ++ zs) ++ ws)
Owns-shift p x xs ys zs ws o =
    rw (append_assoc (xs ++ ys) zs ws, append_assoc xs ys (zs ++ ws))
      (Owns-middle p x xs (ys ++ (zs ++ ws)) (
        subst (Owns p) (append_assoc (xs ++ x ∷ ys) zs ws ∙ append_assoc xs (x ∷ ys) (zs ++ ws)) o))

counted-uncount :
    (z : ℤ) (x n : ℕ) (before after : List ℕ)
    → z ≡ pos (length (before ++ x ∷ after) + n)
    → z -ℤ pos 1 ≡ pos (length (before ++ after) + n)
counted-uncount z x n before after e =
    let one : length (before ++ x ∷ after) + n ≡ suc (length (before ++ after) + n) =
      omega (arith, length-append before (x ∷ after), length-append before after) in
    ap (λ y. y -ℤ pos 1) e ∙ ap (λ m. pos m -ℤ pos 1) one ∙ pos_suc (length (before ++ after) + n)

-- recycleRequest and mRequestsInHAL-- for a request that the hardware returns.
module _ (a : Answers) (x : ℕ) (before after : List ℕ) (t : RequestThread)
    (b : Books t (before ++ x ∷ after)) where
  pub recycled-Pooled :
      Pooled ((before ++ after) ++ waiting_list t.waiting_request) t (recycle_request a x t)
  recycled-Pooled =
      recycle_request-Pooled a ((before ++ after) ++ waiting_list t.waiting_request) x t (
        Owns-shift t.requests_pool x before after (waiting_list t.waiting_request) t.active_request
          b.owns)

  pub uncount-Books : Books (uncount (recycle_request a x t)) (before ++ after)
  unfolding uncount
  uncount-Books =
      let (q, ac, r, e, o) = recycled-Pooled in
      subst (λ (w : RequestThread). Books (uncount w) (before ++ after)) (sym e)
        (record {
          owns = o;
          counted =
              counted-uncount t.requests_in_hal x (length (waiting_list t.waiting_request)) before
                after b.counted;
          parked = b.parked;
        })

-- The request that waited has been sent, or it has been recycled.
module _ (t : RequestThread) (hal : List ℕ) (w : ℕ) (b : Books t hal)
    (e : t.waiting_request ≡ some w) where
  one_more : length hal + 1 ≡ length (hal ++ w ∷ []) + 0
  one_more = omega (arith, length-append hal (w ∷ []))

  pub sent-Books : Books (record t { waiting_request = none }) (hal ++ w ∷ [])
  sent-Books = record {
    owns =
        subst (λ xs. Owns t.requests_pool (xs ++ t.active_request))
          (sym (append-nil (hal ++ w ∷ [])))
          (subst (λ o. Owns t.requests_pool ((hal ++ waiting_list o) ++ t.active_request)) e
            b.owns);
    counted =
        subst (λ o. t.requests_in_hal ≡ pos (length hal + length (waiting_list o))) e b.counted
        ∙ ap pos one_more;
    parked = λ _. refl;
  }

  failed-Owns : Owns t.requests_pool (w ∷ hal ++ t.active_request)
  failed-Owns = Owns-middle t.requests_pool w hal t.active_request (
      subst (Owns t.requests_pool) (append_assoc hal (w ∷ []) t.active_request)
        (subst (λ o. Owns t.requests_pool ((hal ++ waiting_list o) ++ t.active_request)) e b.owns))

  failed_counted : t.requests_in_hal -ℤ pos 1 ≡ pos (length hal + 0)
  failed_counted =
      let one : length hal + 1 ≡ suc (length hal + 0) = omega arith in
      ap (λ z. z -ℤ pos 1)
        (subst (λ o. t.requests_in_hal ≡ pos (length hal + length (waiting_list o))) e b.counted)
      ∙ ap (λ m. pos m -ℤ pos 1) one
      ∙ pos_suc (length hal + 0)

  pub failed-Pooled : (a : Answers) → Pooled hal t (recycle_request a w t)
  failed-Pooled a = recycle_request-Pooled a hal w t failed-Owns

  pub failed-Books :
      (a : Answers)
      → Books (record (uncount (recycle_request a w t)) { waiting_request = none }) hal
  unfolding uncount
  failed-Books a =
      let (q, ac, r, e', o) = failed-Pooled a in
      subst (λ (v : RequestThread). Books (record (uncount v) { waiting_request = none }) hal)
        (sym e')
        (record {
          owns = subst (λ xs. Owns q (xs ++ ac)) (sym (append-nil hal)) o;
          counted = failed_counted;
          parked = λ _. refl;
        })

-- Where the waiting request `w` is after it was sent again: with the hardware, or given back.
abbrev pub Freed : List ℕ → ℕ → RequestThread → Type 0
Freed hal w t = (t.waiting_request ≡ none) × (Books t hal ⊎ Books t (hal ++ w ∷ []))

abbrev pub Retried : List ℕ → ℕ → RequestThread × Capture → RequestThread × Status → Type 0
Retried hal w r s =
    ((k : BlockAction) × (r.1 ≡ blocked k) × (s.0.waiting_request ≡ some w) × Books s.0 hal)
    ⊎ Freed hal w s.0

pub retried-Retried :
    (a : Answers) (hal : List ℕ) (w : ℕ) (r : RequestThread × Capture)
    → Books r.0 hal
    → r.0.waiting_request ≡ some w
    → Retried hal w r (retried a w r)
unfolding retried
retried-Retried a hal w (t, blocked k) b e = inl (k, refl, e, b)
retried-Retried a hal w (t, accepted) b e = inr (refl, inr (sent-Books t hal w b e))
retried-Retried a hal w (t, failed status) b e = inr (refl, inl (failed-Books t hal w b e a))
