-- ===== src/Results/Accounts.antt =====
-- What the log of AAL/ResultProcessor.cpp holds of a request, and the invariant that ties the counters
-- of a RequestState_t to it.
use hardware_rockchip_camera.Base.{
  ℕ, ◌+◌, ◌≤◌, ◌<◌, ◌≡◌, ◌∙◌, ◌≢◌, ◌⊎◌, inl, inr, Bool, false, List, [], ◌∷◌, Option, none, some,
  arith, ◌==◌, if◌then◌else◌, All, Bool-cases,
}
use hardware_rockchip_camera.Pool.Items.Owned.{Owns}
use hardware_rockchip_camera.Results.State.{
  RequestState, Event, shutter, metadata, buffer, request_returned, Processor, Outcome, done, fault,
  out_of_fuel, ◌>>=◌, find_state, put_state,
}
use hardware_rockchip_camera.Results.Returns.{must_wait}
use hardware_rockchip_camera.Results.Transit.{Ascending, slots, All-put}

pub data Kind : Type 0 where
  shutters results buffers returns : Kind

abbrev pub counts : Kind → ℕ → Event → Bool
counts shutters id (shutter n _) = n == id
counts results id (metadata n _ _) = n == id
counts buffers id (buffer n _ _ _) = n == id
counts returns id (request_returned n) = n == id
counts _ _ _ = false

-- How often request `id` got an event of this kind.
abbrev pub tally : Kind → ℕ → List Event → ℕ
tally k id [] = 0
tally k id (e ∷ es) = (if counts k id e then 1 else 0) + tally k id es

abbrev pub IsPresent : Option ℕ → Type 0
IsPresent o = o ≢ none

-- The outcome is a result with the property.
abbrev pub Returns {ℓ} : {A : Type ℓ} → (A → Type 0) → Outcome A → Type 0
Returns P (done a) = P a
Returns P fault = ⊥
Returns P out_of_fuel = ⊥

pub Returns-mono {ℓ} :
    {A : Type ℓ} (P Q : A → Type 0) (m : Outcome A)
    → ((a : A) → P a → Q a)
    → Returns P m
    → Returns Q m
Returns-mono P Q (done a) f h = f a h
Returns-mono P Q fault f h = absurd h
Returns-mono P Q out_of_fuel f h = absurd h

pub Returns-bind {ℓ κ} :
    {A : Type ℓ} {B : Type κ} (P : A → Type 0) (Q : B → Type 0) (m : Outcome A) (f : A → Outcome B)
    → Returns P m
    → ((a : A) → P a → Returns Q (f a))
    → Returns Q (m >>= f)
Returns-bind P Q (done a) f h k = k a h
Returns-bind P Q fault f h k = absurd h
Returns-bind P Q out_of_fuel f h k = absurd h

-- Only request `id` may have got events between two logs.
abbrev pub Elsewhere : ℕ → List Event → List Event → Type 0
Elsewhere id log log' = (k : Kind) (j : ℕ) → j ≢ id → tally k j log' ≡ tally k j log

-- The number of buffers of each request and of partial results of every request.
module _ (total : ℕ → ℕ) (partials : ℕ) where
  -- The counters of a request in transit say what its client has got.
  pub record Accounted (log : List Event) (s : RequestState) : Type 0 where
    pub shutters_told : tally shutters s.req_id log ≡ (if s.is_shutter_done then 1 else 0)
    pub results_told : tally results s.req_id log ≡ s.partial_result_returned
    pub buffers_told : tally buffers s.req_id log ≡ s.buffers_returned
    pub not_returned : tally returns s.req_id log ≡ 0
    pub total_known : s.buffers_to_return ≡ total s.req_id
    pub own_request : s.request.id ≡ s.req_id
    pub settings_there : All IsPresent s.pending_partial_results

  -- A request that went back to RequestThread went back once, with all its results delivered.
  abbrev pub Delivered : List Event → Type 0
  Delivered log =
      (id : ℕ)
      → 0 < tally returns id log
      → (tally returns id log ≡ 1)
        × (tally buffers id log ≡ total id)
        × (tally results id log ≡ partials)
        × (tally shutters id log ≤ 1)

  pub record Inv (p : Processor) : Type 0 where
    pub ascending : Ascending 0 p.requests_in_transit
    pub owns : Owns p.req_state_pool (slots p.requests_in_transit)
    pub accounted : All (Accounted p.log) p.requests_in_transit
    pub delivered : Delivered p.log
    pub counting :
        (p.partial_result_count ≡ partials)
        ⊎ ((p.partial_result_count ≡ 0) × (p.requests_in_transit ≡ []))
    pub none_waits : p.requests_pending_meta_return ≡ []

  pub Accounted-Elsewhere :
      (id : ℕ) (log log' : List Event) (r : RequestState)
      → Elsewhere id log log'
      → r.req_id ≢ id
      → Accounted log r
      → Accounted log' r
  Accounted-Elsewhere id log log' r e h a = ground (
    arith,
    e shutters r.req_id h,
    e results r.req_id h,
    e buffers r.req_id h,
    e returns r.req_id h,
  )

  pub Delivered-Elsewhere :
      (id : ℕ) (log log' : List Event)
      → Elsewhere id log log'
      → tally returns id log' ≡ 0
      → Delivered log
      → Delivered log'
  Delivered-Elsewhere id log log' e z d j h = elim (Bool-cases (j == id)) [
    | inl q ↦ absurd (ground arith)
    | inr q ↦ ground (
      arith,
      e shutters j (ground arith),
      e results j (ground arith),
      e buffers j (ground arith),
      e returns j (ground arith),
      d j,
    )
  ]

  module _ (id : ℕ) where
    -- The invariant while a handler works on request `id`, as `s`, which is not written back yet.
    pub record Open (p : Processor) (s : RequestState) : Type 0 where
      pub ascending : Ascending 0 p.requests_in_transit
      pub owns : Owns p.req_state_pool (slots p.requests_in_transit)
      pub found :
          (t : RequestState) × (find_state s.req_id p.requests_in_transit ≡ some t)
          × (t.slot ≡ s.slot)
      pub accounted : All (Accounted p.log) (put_state s p.requests_in_transit)
      pub mine : Accounted p.log s
      pub delivered : Delivered p.log
      pub counting : p.partial_result_count ≡ partials
      pub none_waits : p.requests_pending_meta_return ≡ []
      pub same_id : s.req_id ≡ id
      pub in_order : (s.pending_partial_results ≡ []) ⊎ (must_wait p s ≡ false)

    abbrev pub IsOpen : Processor × RequestState → Type 0
    IsOpen r = Open r.0 r.1

    -- A step that tells only the client of `s`, and keeps its counters true.
    pub Open-step :
        (p : Processor) (s s' : RequestState) (log' : List Event) (next : ℕ)
        → Open p s
        → s'.req_id ≡ s.req_id
        → s'.slot ≡ s.slot
        → Elsewhere s.req_id p.log log'
        → Accounted log' s'
        → (s'.pending_partial_results ≡ []) ⊎ (must_wait p s' ≡ false)
        → Open (record p { log = log'; next_request_id = next }) s'
    unfolding must_wait
    Open-step p s s' log' next o e f g a w = record {
      ascending = o.ascending;
      owns = o.owns;
      found = (o.found.0, rw e o.found.1, ground arith);
      accounted =
          All-put (Accounted p.log) (Accounted log') s s' p.requests_in_transit (ground arith)
            (λ r h. Accounted-Elsewhere s.req_id p.log log' r g (ground arith)) a o.accounted;
      mine = a;
      delivered = Delivered-Elsewhere s.req_id p.log log' g (ground arith) o.delivered;
      counting = o.counting;
      none_waits = o.none_waits;
      same_id = e ∙ o.same_id;
      in_order = w;
    }
