-- ===== src/Results/Register.antt =====
-- handleRegisterRequest of AAL/ResultProcessor.cpp keeps the accounts, and so does a device error.
use hardware_rockchip_camera.Base.{
  ℕ, ◌+◌, ◌<◌, ◌≡◌, refl, sym, inl, inr, false, List, ◌∷◌, none, arith, ◌==◌, if◌then◌else◌, length,
  All-mono, subst,
}
use hardware_rockchip_camera.Results.State.{Request, RequestState, Event, Processor, find_state}
use hardware_rockchip_camera.Results.Accounts.{Returns, Accounted, Inv}
use hardware_rockchip_camera.Results.State.{init_state, insert_state, device_error}
use hardware_rockchip_camera.Pool.Items.{ItemPool, acquire_item}
use hardware_rockchip_camera.Pool.Items.Owned.{Owns, acquire_item-Owns}
use hardware_rockchip_camera.Results.Handlers.{register_acquired, handle_device_error}
use hardware_rockchip_camera.Results.Transit.{slots, insert-Ascending, slots-insert, All-insert}
use hardware_rockchip_camera.Results.Accounts.{Kind, shutters, results, buffers, returns, tally}
use hardware_rockchip_camera.Results.Invariant.{InvAfter}
use mathlib.Core.List.Perm

-- A request that the client sends for the first time.
pub record IsFresh (total : ℕ → ℕ) (partials : ℕ) (p : Processor) (req : Request) : Type 0 where
  pub unheard : (k : Kind) → tally k req.id p.log ≡ 0
  pub buffer_count : req.num_output_bufs + req.num_input_bufs ≡ total req.id
  pub partial_count : length req.partial_result_buffers ≡ partials

module _ (total : ℕ → ℕ) (partials : ℕ) (some_partials : 0 < partials) where
  registered-Inv :
      (p : Processor) (req : Request) (x : ℕ) (q : ItemPool)
      → Inv total partials p
      → find_state req.id p.requests_in_transit ≡ none
      → IsFresh total partials p req
      → Owns q (x ∷ slots p.requests_in_transit)
      → Inv total partials (record p {
        req_state_pool = q;
        requests_in_transit = insert_state (init_state x req) p.requests_in_transit;
        partial_result_count =
            if p.partial_result_count == 0
            then length req.partial_result_buffers
            else p.partial_result_count;
      })
  unfolding init_state
  registered-Inv p req x q v e f w = record {
    ascending =
        insert-Ascending (init_state x req) 0 p.requests_in_transit v.ascending (omega arith) e;
    owns = record {
      allocated = w.allocated;
      all_there =
          Perm.trans
            (Perm.append_left q.items_in_pool
              (slots-insert (init_state x req) p.requests_in_transit))
            w.all_there;
    };
    accounted =
        All-insert (Accounted total partials p.log) (init_state x req) p.requests_in_transit
          (record {
            shutters_told = f.unheard shutters;
            results_told = f.unheard results;
            buffers_told = f.unheard buffers;
            not_returned = f.unheard returns;
            total_known = f.buffer_count;
            own_request = refl;
            settings_there = tt;
          })
          v.accounted;
    delivered = v.delivered;
    counting = inl (ground (arith, v.counting, f.partial_count));
    none_waits = v.none_waits;
  }

  pub register_acquired-Inv :
      (p : Processor) (req : Request)
      → Inv total partials p
      → find_state req.id p.requests_in_transit ≡ none
      → IsFresh total partials p req
      → Returns
          (InvAfter total partials some_partials)
          (register_acquired p req (acquire_item p.req_state_pool false))
  unfolding register_acquired
  register_acquired-Inv p req v e f =
      elim (acquire_item-Owns p.req_state_pool (slots p.requests_in_transit) v.owns) [
        | inl (_, r) ↦
            subst (λ t. Returns (InvAfter total partials some_partials) (register_acquired p req t))
              (sym r) v
        | inr (_, (x, q, r, w, _)) ↦
            subst (λ t. Returns (InvAfter total partials some_partials) (register_acquired p req t))
              (sym r) (registered-Inv p req x q v e f w)
      ]

  device_error-Accounted :
      (log : List Event) (s : RequestState)
      → Accounted total partials log s
      → Accounted total partials (device_error ∷ log) s
  device_error-Accounted log s a = ground (arith, a)

  pub device_error-Inv :
      (p : Processor) → Inv total partials p → Inv total partials (handle_device_error p)
  unfolding handle_device_error
  device_error-Inv p v = record {
    ascending = v.ascending;
    owns = v.owns;
    accounted =
        All-mono (Accounted total partials p.log) (Accounted total partials (device_error ∷ p.log))
          p.requests_in_transit (device_error-Accounted p.log) v.accounted;
    delivered = λ j h. ground (arith, v.delivered j);
    counting = v.counting;
    none_waits = v.none_waits;
  }
