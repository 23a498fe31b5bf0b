-- ===== src/Results/Recycle.antt =====
-- Entering and leaving a handler of AAL/ResultProcessor.cpp: the lookup, and the write back or
-- `recycleRequest` at its end.
use hardware_rockchip_camera.Base.{
  ℕ, ◌≡◌, refl, sym, ◌∙◌, ◌⊎◌, inl, inr, false, ◌&&◌, List, [], ◌∷◌, some, arith, ◌==◌, Bool-cases,
  subst, if_rule,
}
use hardware_rockchip_camera.Status.{Status}
use hardware_rockchip_camera.Pool.Items.{ItemPool}
use hardware_rockchip_camera.Pool.Items.Owned.{Owns, release_item-Owns}
use hardware_rockchip_camera.Results.State.{
  Request, RequestState, request_returned, Processor, find_state, put_state, erase_state,
}
use hardware_rockchip_camera.Results.Returns.{
  commit, must_wait, recycle_request, finish, all_buffers_done, all_metadata_done,
}
use hardware_rockchip_camera.Results.Transit.{
  slots, All-erase, All-find, erase-Ascending, put-Ascending, put-find, find-key, find-put_self,
  slots-put, slots-erase,
}
use hardware_rockchip_camera.Results.Accounts.{
  Returns, Accounted, Delivered, Inv, Open, Accounted-Elsewhere,
}
use hardware_rockchip_camera.Results.Deliver.{returned_log}

module _ (total : ℕ → ℕ) (partials : ℕ) where
  known_count :
      (p : Processor) (ss : List RequestState) (id : ℕ) (s : RequestState)
      → find_state id ss ≡ some s
      → (p.partial_result_count ≡ partials) ⊎ ((p.partial_result_count ≡ 0) × (ss ≡ []))
      → p.partial_result_count ≡ partials
  unfolding find_state
  known_count p ss id s e (inl h) = h
  known_count p [] id s e (inr h) = absurd (cc)
  known_count p (x ∷ xs) id s e (inr h) = absurd (cc)

  pub enter-Open :
      (p : Processor) (id : ℕ) (s : RequestState)
      → Inv total partials p
      → find_state id p.requests_in_transit ≡ some s
      → (s.pending_partial_results ≡ []) ⊎ (must_wait p s ≡ false)
      → Open total partials id p s
  enter-Open p id s v e w = record {
    ascending = v.ascending;
    owns = v.owns;
    found = (
      s,
      subst (λ k. find_state k p.requests_in_transit ≡ some s)
          (sym (find-key id p.requests_in_transit s e)) e,
      refl,
    );
    accounted = rw (put-find id 0 p.requests_in_transit s v.ascending e) v.accounted;
    mine = All-find (Accounted total partials p.log) id p.requests_in_transit s e v.accounted;
    delivered = v.delivered;
    counting = known_count p p.requests_in_transit id s e v.counting;
    none_waits = v.none_waits;
    same_id = find-key id p.requests_in_transit s e;
    in_order = w;
  }

  module _ (id : ℕ) (p : Processor) (s : RequestState) (o : Open total partials id p s) where
    same_slots : slots (put_state s p.requests_in_transit) ≡ slots p.requests_in_transit
    same_slots = slots-put s o.found.0 0 p.requests_in_transit o.ascending o.found.1 o.found.2

    pub commit-Inv : Inv total partials (commit p s)
    commit-Inv = record {
      ascending = put-Ascending s 0 p.requests_in_transit o.ascending;
      owns = rw same_slots o.owns;
      accounted = o.accounted;
      delivered = o.delivered;
      counting = inl o.counting;
      none_waits = o.none_waits;
    }

    committed : find_state s.req_id (put_state s p.requests_in_transit) ≡ some s
    committed = find-put_self s o.found.0 p.requests_in_transit o.found.1

    -- All results are there when a request is recycled.
    recycled-Delivered :
        s.buffers_returned ≡ s.buffers_to_return
        → s.partial_result_returned ≡ p.partial_result_count
        → Delivered total partials (request_returned s.req_id ∷ p.log)
    recycled-Delivered hb hm j h = elim (Bool-cases (j == s.req_id)) [
      | inl q ↦ ground (arith, o.mine, o.counting)
      | inr q ↦ ground (arith, o.delivered j)
    ]

    recycled-Inv :
        (q : ItemPool)
        → s.buffers_returned ≡ s.buffers_to_return
        → s.partial_result_returned ≡ p.partial_result_count
        → Owns q (slots (erase_state s.req_id (put_state s p.requests_in_transit)))
        → Inv total partials (record p {
          req_state_pool = q;
          requests_in_transit = erase_state s.req_id (put_state s p.requests_in_transit);
          log = request_returned s.req_id ∷ p.log;
        })
    recycled-Inv q hb hm w = record {
      ascending =
          erase-Ascending s.req_id 0 _ (put-Ascending s 0 p.requests_in_transit o.ascending);
      owns = w;
      accounted =
          All-erase (Accounted total partials p.log) _ s.req_id _
            (λ r h.
              Accounted-Elsewhere total partials s.req_id p.log _ r (returned_log s.req_id p.log) h)
            o.accounted;
      delivered = recycled-Delivered hb hm;
      counting = inl o.counting;
      none_waits = o.none_waits;
    }

    pub recycle_request-Inv :
        (req : Request)
        → req.id ≡ s.req_id
        → s.buffers_returned ≡ s.buffers_to_return
        → s.partial_result_returned ≡ p.partial_result_count
        → Returns (λ r. Inv total partials r.0) (recycle_request (commit p s) req)
    unfolding recycle_request
    recycle_request-Inv req e hb hm =
        let (before, after, f, g) =
          slots-erase s.req_id 0 _ s (put-Ascending s 0 p.requests_in_transit o.ascending)
            committed in
        let (q, r, w, _, _) =
          release_item-Owns p.req_state_pool before after s.slot
            (subst (Owns p.req_state_pool) (sym same_slots ∙ f) o.owns) in
        rw (e, committed, recycle_request)
          (rw (r, e) (recycled-Inv q hb hm (subst (Owns q) (sym g) w)))

    pub finish-Inv :
        (req : Request) (status : Status)
        → req.id ≡ id
        → Returns (λ r. Inv total partials r.0) (finish p s req status)
    unfolding finish
    finish-Inv req status e =
        if_rule (Returns (λ r. Inv total partials r.0))
          (all_buffers_done s && all_metadata_done p s) _ _
          (λ h. recycle_request-Inv req (e ∙ sym o.same_id) (ground arith) (ground arith))
          (λ h. commit-Inv)
