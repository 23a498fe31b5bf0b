-- ===== src/Capture/Thread/Recycle.antt =====
-- recycleRequest and waitRequestsDrain of AAL/RequestThread.cpp keep the pool's books.
use mathlib.Core.List.{append-nil, append_assoc}
use hardware_rockchip_camera.Base.{
  subst, sym, ap, ◌∙◌, ℕ, ◌≡◌, refl, List, [], ◌∷◌, ◌++◌, Bool, true, false, if_rule, if◌then◌else◌,
  length,
}
use hardware_rockchip_camera.Status.{Status}
use hardware_rockchip_camera.Pool.Items.{ItemPool}
use hardware_rockchip_camera.Pool.Items.Owned.{Owns, release_item-Owns}
use hardware_rockchip_camera.Capture.Request.{Camera3Request, is_any_buf_active}
use hardware_rockchip_camera.Capture.Thread.{
  RequestThread, Answers, release_request, set_request, wait_on, drain_all, wait_requests_drain,
  sweep, swept, keep_active, recycle_request, wait_on_front, is_beyond_depth,
}
use hardware_rockchip_camera.Capture.Thread.Accounts.{Owns-middle, Owns-front}

-- The pool, the requests and the list of active ones may have changed, and the items in `held` are
-- out, and so are the active ones.
abbrev pub Pooled : List ℕ → RequestThread → RequestThread → Type 0
Pooled held t t' =
    (q : ItemPool) × (active : List ℕ) × (requests : ℕ → Camera3Request) × (t'
      ≡ record t { requests_pool = q; active_request = active; requests = requests })
    × Owns q (held ++ active)

-- As Pooled, with the items in `held` out and the list of active ones as it was.
abbrev Released : List ℕ → RequestThread → RequestThread → Type 0
Released held t t' =
    (q : ItemPool) × (requests : ℕ → Camera3Request) × (t'
      ≡ record t { requests_pool = q; requests = requests })
    × Owns q held

release_request-Released :
    (x : ℕ) (before after : List ℕ) (t : RequestThread)
    → Owns t.requests_pool (before ++ x ∷ after)
    → Released (before ++ after) t (release_request x t)
unfolding release_request set_request
release_request-Released x before after t o =
    let (q, e, owns, _, _) = release_item-Owns t.requests_pool before after x o in
    (_, _, refl, subst (λ (r : ItemPool × Status). Owns r.0 (before ++ after)) (sym e) owns)

Released-trans :
    (held held' : List ℕ) (t u v : RequestThread)
    → Released held t u
    → Released held' u v
    → Released held' t v
Released-trans held held' t u v (q, r, e, o) (q', r', e', o') = (
  q',
  r',
  e' ∙ ap {A = RequestThread} (λ w. record w { requests_pool = q'; requests = r' }) e,
  o',
)

Released-pool :
    (held : List ℕ) (t t' : RequestThread) → Released held t t' → Owns t'.requests_pool held
Released-pool held t t' (q, r, e, o) =
    subst (λ (w : RequestThread). Owns w.requests_pool held) (sym e) o

Pooled-refl :
    (held : List ℕ) (t : RequestThread)
    → Owns t.requests_pool (held ++ t.active_request)
    → Pooled held t t
Pooled-refl held t o = (t.requests_pool, t.active_request, t.requests, refl, o)

drain_all-Released :
    (a : Answers) (held xs : List ℕ) (t : RequestThread)
    → Owns t.requests_pool (held ++ xs)
    → Released held t (drain_all a xs t)
unfolding drain_all wait_on set_request
drain_all-Released a held [] t o =
    (t.requests_pool, t.requests, refl, subst (Owns t.requests_pool) (append-nil held) o)
drain_all-Released a held (x ∷ xs) t o =
    let t1 = wait_on a x t in
    let waited : Released (held ++ x ∷ xs) t t1 = (_, _, refl, o) in
    let released = release_request-Released x held xs t1 o in
    Released-trans (held ++ xs) held t _ _
      (Released-trans (held ++ x ∷ xs) (held ++ xs) t t1 _ waited released)
      (drain_all-Released a held xs _ (Released-pool (held ++ xs) t1 _ released))

-- Every active request is given back, whatever the waits on its fences return.
pub wait_requests_drain-Pooled :
    (a : Answers) (held : List ℕ) (t : RequestThread)
    → Owns t.requests_pool (held ++ t.active_request)
    → Pooled held t (wait_requests_drain a t) × ((wait_requests_drain a t).active_request ≡ [])
unfolding wait_requests_drain
wait_requests_drain-Pooled a held t o =
    let (q, r, e, owns) = drain_all-Released a held t.active_request t o in
    (
      (
        q,
        [],
        r,
        ap {A = RequestThread} (λ w. record w { active_request = [] }) e,
        subst (Owns q) (sym (append-nil held)) owns,
      ),
      refl,
    )

Swept : List ℕ → RequestThread → List ℕ × RequestThread → Type 0
Swept held t r = Released (held ++ r.0) t r.1

sweep_one :
    (b : Bool) (x : ℕ) (held xs : List ℕ) (t : RequestThread)
    → Owns t.requests_pool (held ++ x ∷ xs)
    → Released ((if b then x ∷ held else held) ++ xs) t (if b then t else release_request x t)
sweep_one true x held xs t o =
    (t.requests_pool, t.requests, refl, Owns-middle t.requests_pool x held xs o)
sweep_one false x held xs t o = release_request-Released x held xs t o

Swept-cons :
    (b : Bool) (x : ℕ) (held : List ℕ) (t : RequestThread) (r : List ℕ × RequestThread)
    → Swept (if b then x ∷ held else held) t r
    → Swept held t (if b then x ∷ r.0 else r.0, r.1)
unfolding Swept
Swept-cons true x held t r (q, rq, e, o) = (q, rq, e, Owns-front q x held r.0 o)
Swept-cons false x held t r s = s

sweep-Swept :
    (held xs : List ℕ) (t : RequestThread)
    → Owns t.requests_pool (held ++ xs)
    → Swept held t (sweep xs t)
unfolding sweep Swept
sweep-Swept held [] t o = (t.requests_pool, t.requests, refl, o)
sweep-Swept held (x ∷ xs) t o =
    let b = is_any_buf_active (t.requests x) in
    let held' = if b then x ∷ held else held in
    let one = sweep_one b x held xs t o in
    let t1 = if b then t else release_request x t in
    let rest = sweep-Swept held' xs t1 (Released-pool (held' ++ xs) t t1 one) in
    Swept-cons b x held t (sweep xs t1)
      (Released-trans (held' ++ xs) (held' ++ (sweep xs t1).0) t t1 _ one rest)

Owns-last :
    (p : ItemPool) (x : ℕ) (held xs : List ℕ)
    → Owns p (x ∷ held ++ xs)
    → Owns p (held ++ (xs ++ x ∷ []))
Owns-last p x held xs o =
    subst (Owns p) (append_assoc held xs (x ∷ []))
      (Owns-front p x (held ++ xs) [] (subst (λ ys. Owns p (x ∷ ys)) (sym (append-nil _)) o))

module _ (a : Answers) (held : List ℕ) where
  wait_on_front-Pooled :
      (xs : List ℕ) (t : RequestThread)
      → Owns t.requests_pool (held ++ t.active_request)
      → Pooled held t (wait_on_front a xs t)
  unfolding wait_on_front wait_on set_request
  wait_on_front-Pooled [] t o = Pooled-refl held t o
  wait_on_front-Pooled (x ∷ xs) t o = (t.requests_pool, t.active_request, _, refl, o)

  Pooled-trans : (t u v : RequestThread) → Pooled held t u → Pooled held u v → Pooled held t v
  Pooled-trans t u v (q, ac, r, e, o) (q', ac', r', e', o') = (
    q',
    ac',
    r',
    e'
        ∙ ap {A = RequestThread}
            (λ w. record w { requests_pool = q'; active_request = ac'; requests = r' }) e,
    o',
  )

  Pooled-pool :
      (t t' : RequestThread) → Pooled held t t' → Owns t'.requests_pool (held ++ t'.active_request)
  Pooled-pool t t' (q, ac, r, e, o) =
      subst (λ (w : RequestThread). Owns w.requests_pool (held ++ w.active_request)) (sym e) o

  swept-Pooled :
      (t : RequestThread)
      → Swept held t (sweep t.active_request t)
      → Pooled held t (swept (sweep t.active_request t))
  unfolding Swept swept
  swept-Pooled t (q, r, e, o) = (
    q,
    (sweep t.active_request t).0,
    r,
    ap {A = RequestThread} (λ w. record w { active_request = (sweep t.active_request t).0 }) e,
    o,
  )

  module _ (x : ℕ) (t : RequestThread)
      (o : Owns t.requests_pool (x ∷ held ++ t.active_request)) where
    keep_active-Pooled : Pooled held t (keep_active a x t)
    unfolding keep_active
    keep_active-Pooled =
        let active = t.active_request ++ x ∷ [] in
        let t' = record t { active_request = active } in
        let owns = Owns-last t.requests_pool x held t.active_request o in
        let kept : Pooled held t t' = (t.requests_pool, active, t.requests, refl, owns) in
        if_rule (Pooled held t) (is_beyond_depth (length active) t.pipeline_depth) _ _
          (λ _. Pooled-trans t t' _ kept (wait_on_front-Pooled active t' owns)) (λ _. kept)

    release_request-Pooled : Pooled held t (release_request x t)
    release_request-Pooled =
        let (q, r, e, owns) = release_request-Released x [] (held ++ t.active_request) t o in
        (q, t.active_request, r, e, owns)

    -- The returned request goes back to the pool, or it is kept while a buffer holds its release fence.
    pub recycle_request-Pooled : Pooled held t (recycle_request a x t)
    unfolding recycle_request swept
    recycle_request-Pooled =
        let b = is_any_buf_active (t.requests x) in
        let t' = if b then keep_active a x t else release_request x t in
        let first =
          if_rule (Pooled held t) b _ _ (λ _. keep_active-Pooled) (λ _. release_request-Pooled) in
        Pooled-trans t t' _ first
          (swept-Pooled t' (sweep-Swept held t'.active_request t' (Pooled-pool t t' first)))
